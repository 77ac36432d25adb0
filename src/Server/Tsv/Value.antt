-- ===== src/Server/Tsv/Value.antt =====
-- `write_tsv_value` of crates/server/src/mysql.rs.
use jibs.Prelude.{
  ℕ, ◌+◌, ◌*◌, ◌%◌, ◌^◌, Bool, ◌&&◌, [], ◌∷◌, ◌++◌, if◌then◌else◌, ◌==◌, Bytes, codes,
}
use jibs.Prelude.Decimal.{padded}
use jibs.Server.Keys.Values.{MySqlValue, null, bytes, int, uint, float, double, date, time}
use jibs.Server.Tsv.Foreign.{Crates}
use jibs.Server.Tsv.Escape.{escape_tsv_bytes}

-- `{:04}-{:02}-{:02}`
unfoldable pub day_text : ℕ → ℕ → ℕ → Bytes
unfolding padded
day_text y m d = padded 4 y ++ (b'-' ∷ (padded 2 m ++ (b'-' ∷ padded 2 d)))

-- `{:02}:{:02}:{:02}`
unfoldable pub clock_text : ℕ → ℕ → ℕ → Bytes
unfolding padded
clock_text h m s = padded 2 h ++ (b':' ∷ (padded 2 m ++ (b':' ∷ padded 2 s)))

-- `.{:06}`
unfoldable pub fraction_text : ℕ → Bytes
unfolding padded
fraction_text us = b'.' ∷ padded 6 us

unfoldable pub date_text : ℕ → ℕ → ℕ → ℕ → ℕ → ℕ → ℕ → Bytes
unfolding day_text clock_text fraction_text
date_text y m d h mi s us =
    if h == 0 && mi == 0 && s == 0 && us == 0
    then day_text y m d
    else if us == 0
    then day_text y m d ++ (b' ' ∷ clock_text h mi s)
    else day_text y m d ++ (b' ' ∷ (clock_text h mi s ++ fraction_text us))

-- The hours are computed in a u32.
unfoldable pub time_text : Bool → ℕ → ℕ → ℕ → ℕ → ℕ → Bytes
unfolding clock_text fraction_text
time_text neg d h m s us =
    let total_hours = (d * 24 + h) % 2 ^ 32 in
    let sign : Bytes = if neg then b'-' ∷ [] else [] in
    if us == 0
    then sign ++ clock_text total_hours m s
    else sign ++ (clock_text total_hours m s ++ fraction_text us)

unfoldable pub write_tsv_value : {R : Type 0} → Crates R → Bytes → MySqlValue → Bytes
unfolding date_text time_text escape_tsv_bytes
write_tsv_value crates buf null = buf ++ codes "\\N"
write_tsv_value crates buf (bytes b) = escape_tsv_bytes buf b
write_tsv_value crates buf (int i) = buf ++ crates.format_i64 i
write_tsv_value crates buf (uint u) = buf ++ crates.format_u64 u
write_tsv_value crates buf (float f) = buf ++ crates.format_f32 f
write_tsv_value crates buf (double d) = buf ++ crates.format_f64 d
write_tsv_value crates buf (date y m d h mi s us) = buf ++ date_text y m d h mi s us
write_tsv_value crates buf (time neg d h m s us) = buf ++ time_text neg d h m s us
