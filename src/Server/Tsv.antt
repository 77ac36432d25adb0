-- ===== src/Server/Tsv.antt =====
-- crates/server/src/tsv.rs: the writer of table rows; the value formatting is that of mysql.rs.
--
-- Other crates are a parameter (`Crates`): `choose` is the random choice of the rand crate, with its
-- generator as a state; hex, itoa, ryu and zstd are functions. The vectors `anon_by_column` and
-- `binary_by_column`, which `new` builds side by side, are one list of columns, and `num_columns` is
-- its length. A row is the list of its values.
pub mod Foreign
pub mod Escape
pub mod Value
pub mod New
pub mod Privacy
use jibs.Prelude.{
  ℕ, zero, suc, ◌+◌, ◌-◌, ◌%◌, ◌^◌, Bool, true, false, List, [], ◌∷◌, ◌++◌, Option, none, some,
  if◌then◌else◌, Bytes, codes, length, take, drop, replicate, get_elem?, get_or, ltb, leb,
}
use jibs.Prelude.Decimal.{decimal}
use jibs.Prelude.Replace.{replace}
use jibs.Prelude.Result.{Result, ok, err, ◌>>=◌}
use jibs.Prelude.Words.{to_le_bytes}
use jibs.Protocol.Framing.Words.{or_flag, raw_chunk_header_len}
use jibs.Protocol.Plan.{CompressionMode, uncompressed, zstd, auto}
use jibs.Server.Error.{ServerError}
use jibs.Server.Keys.Values.{MySqlValue}
use jibs.Server.Tsv.Foreign.{Crates}
use jibs.Server.Tsv.Escape.{escape_tsv_bytes}
use jibs.Server.Tsv.Value.{write_tsv_value}

-- `UNIQUE_SENTINEL`
abbrev pub unique_sentinel : Bytes
unique_sentinel = codes "{unique()}"

-- What a NULL is written as.
abbrev pub null_text : Bytes
null_text = codes "\\N"

pub data AnonAction : Type 0 where
  to_null : AnonAction
  faker : ℕ → AnonAction
  faker_unique : ℕ → AnonAction

-- The entries of one column in `anon_by_column` and `binary_by_column`.
pub record Column : Type 0 where
  pub action : Option AnonAction
  pub is_binary : Bool

pub record TsvWriter (R : Type 0) : Type 0 where
  pub buffer : Bytes
  pub columns : List Column
  pub faker_pools : List (List Bytes)
  pub faker_pools_raw : List (List Bytes)
  pub rng : R
  pub unique_counter : ℕ

module _ {R : Type 0} (crates : Crates R) where
  -- A choice from a pool, written by `write`; NULL from an empty pool.
  pub write_choice : (Bytes → Bytes) → List Bytes → TsvWriter R → TsvWriter R
  write_choice write pool w =
      let (chosen, rng) = crates.choose pool w.rng in
      record w {
        rng = rng;
        buffer = w.buffer ++ (elim chosen [ none ↦ null_text | some value ↦ write value ]);
      }

  -- `FakerUnique`: the pool in turn, with the counter in the place of the sentinel.
  pub write_unique : Bool → List Bytes → TsvWriter R → TsvWriter R
  write_unique is_binary [] w = record w { buffer = w.buffer ++ null_text }
  write_unique is_binary (p ∷ pool) w =
      let base = get_or (p ∷ pool) (w.unique_counter % length (p ∷ pool)) [] in
      let unique_value = replace unique_sentinel (decimal w.unique_counter) base in
      record w {
        buffer =
            if is_binary
            then w.buffer ++ crates.hex_encode unique_value
            else escape_tsv_bytes w.buffer unique_value;
        unique_counter = (w.unique_counter + 1) % 2 ^ 64;
      }

  -- A value that is not anonymized; `none` where the row has no such column.
  pub write_plain : Bool → Option MySqlValue → Bytes → Bytes
  write_plain true (some (MySqlValue.bytes b)) buf = buf ++ crates.hex_encode b
  write_plain is_binary (some v) buf = write_tsv_value crates buf v
  write_plain is_binary none buf = buf ++ null_text

  -- The `match` over the action of a column.
  pub write_cell : Option AnonAction → Bool → Option MySqlValue → TsvWriter R → TsvWriter R
  unfolding write_choice write_unique write_plain
  write_cell (some to_null) is_binary value w = record w { buffer = w.buffer ++ null_text }
  write_cell (some (faker pool)) true value w =
      write_choice crates.hex_encode (get_or w.faker_pools_raw pool []) w
  write_cell (some (faker pool)) false value w =
      write_choice (λ escaped. escaped) (get_or w.faker_pools pool []) w
  write_cell (some (faker_unique pool)) is_binary value w =
      write_unique is_binary (get_or w.faker_pools_raw pool []) w
  write_cell none is_binary value w = record w { buffer = write_plain is_binary value w.buffer }

  -- The loop over the columns, from column `i` on.
  pub write_cells : ℕ → List Column → List MySqlValue → TsvWriter R → TsvWriter R
  unfolding write_cell
  write_cells i [] row w = w
  write_cells i (c ∷ cs) row w =
      let separated = record w { buffer = if ltb 0 i then w.buffer ++ 9 ∷ [] else w.buffer } in
      write_cells (i + 1) cs row (write_cell c.action c.is_binary (get_elem? row i) separated)

  unfoldable pub write_row : TsvWriter R → List MySqlValue → TsvWriter R
  unfolding write_cells
  write_row w row =
      let written = write_cells 0 w.columns row w in
      record written { buffer = written.buffer ++ 10 ∷ [] }

  -- `Vec::resize(len, 0)`
  unfoldable pub resize : ℕ → Bytes → Bytes
  resize len buf = take len buf ++ replicate (len - length buf) 0

  -- The frame header behind its length: table and row count.
  abbrev pub frame : ℕ → ℕ → ℕ → Bytes → Bytes
  frame payload_len table_id row_count payload =
      to_le_bytes 4 (or_flag payload_len)
      ++ (to_le_bytes 2 table_id ++ (to_le_bytes 2 row_count ++ payload))

  -- The frame of the rows so far, and the emptied writer.
  unfoldable pub take_encoded_chunk :
      TsvWriter R → ℕ → ℕ → CompressionMode → Result ServerError (Bytes × TsvWriter R)
  unfolding resize
  take_encoded_chunk w table_id row_count zstd =
      let tsv_len = length w.buffer - raw_chunk_header_len in
      elim (crates.zstd_encode (drop raw_chunk_header_len w.buffer)) [
        | err e ↦ err (ServerError.protocol (codes "zstd compression failed: " ++ e))
        | ok compressed ↦ ok (
          frame (2 + 2 + (4 + length compressed)) table_id row_count
              (to_le_bytes 4 tsv_len ++ compressed),
          record w { buffer = resize raw_chunk_header_len [] },
        )
      ]
  take_encoded_chunk w table_id row_count _ =
      let tsv_len = length w.buffer - raw_chunk_header_len in
      ok (
        frame (2 + 2 + tsv_len) table_id row_count (drop raw_chunk_header_len w.buffer),
        record w { buffer = resize raw_chunk_header_len [] },
      )

-- `buffer_size` and `is_empty`
pub buffer_size : {R : Type 0} → TsvWriter R → ℕ
buffer_size w = length w.buffer - raw_chunk_header_len

pub is_empty : {R : Type 0} → TsvWriter R → Bool
is_empty w = leb (length w.buffer) raw_chunk_header_len
