-- ===== src/Client/Loader.antt =====
-- crates/client/src/loader.rs: the bytes of a chunk before they are loaded, and the statement that loads
-- them.
--
-- `zstd::decode_all` is a parameter.
use jibs.Prelude.{
  List, [], ◌∷◌, ◌+◌, ℕ, ◌++◌, if◌then◌else◌, ltb, ◌==◌, Bytes, codes, length, take, drop,
}
use jibs.Prelude.Result.{Result, ok, err}
use jibs.Prelude.Words.{from_le_bytes}
use jibs.Prelude.Decimal.{decimal}
use jibs.Prelude.Replace.{join}
use jibs.Client.Sql.{in_backticks}
use jibs.Protocol.Plan.{ColumnDef, is_binary_type, CompressionMode, uncompressed, zstd, auto}

-- The check of the announced length, behind the decoder.
abbrev pub check_size : ℕ → Result Bytes Bytes → Result Bytes Bytes
check_size uncompressed_len (err e) = err (codes "Decompression failed: " ++ e)
check_size uncompressed_len (ok decompressed) =
    if length decompressed == uncompressed_len
    then ok decompressed
    else err (codes "Decompressed size mismatch")

unfoldable pub maybe_decompress :
    (Bytes → Result Bytes Bytes) → Bytes → CompressionMode → Result Bytes Bytes
unfolding from_le_bytes
maybe_decompress decode_all chunk uncompressed = ok chunk
maybe_decompress decode_all chunk auto = ok chunk
maybe_decompress decode_all chunk zstd =
    if ltb (length chunk) 4
    then err (codes "Invalid compressed data")
    else check_size (from_le_bytes (take 4 chunk)) (decode_all (drop 4 chunk))

-- The variable that takes the hex text of a binary column.
abbrev pub hex_variable : ℕ → Bytes
hex_variable i = codes "@jibs_hex_" ++ decimal i

-- The loop of `build_load_data_sql`, from column `i` on: the columns, and the clauses that decode.
pub load_columns : ℕ → List ColumnDef → List Bytes × List Bytes
unfolding is_binary_type
load_columns i [] = ([], [])
load_columns i (col ∷ columns) =
    let (names, clauses) = load_columns (i + 1) columns in
    if is_binary_type col
    then (
      hex_variable i ∷ names,
      (in_backticks col.name ++ (codes " = UNHEX(" ++ (hex_variable i ++ codes ")"))) ∷ clauses,
    )
    else (in_backticks col.name ∷ names, clauses)

abbrev pub set_text : List Bytes → Bytes
set_text [] = []
set_text (c ∷ clauses) = codes " SET " ++ join (codes ", ") (c ∷ clauses)

pub build_load_data_sql : Bytes → List ColumnDef → Bytes
unfolding load_columns join
build_load_data_sql table columns =
    let (names, clauses) = load_columns 0 columns in
    codes "LOAD DATA LOCAL INFILE 'data.tsv' INTO TABLE "
    ++ (in_backticks table
        ++ (codes " FIELDS TERMINATED BY '\\t' ESCAPED BY '\\\\' LINES TERMINATED BY '\\n' ("
            ++ (join (codes ", ") names ++ (codes ")" ++ set_text clauses))))
