-- ===== src/Tests/Stream.antt =====
-- Anonymized rows and chunks at concrete inputs. The crates are stand-ins: the first entry of a pool
-- is chosen, hexadecimal text is two letters per byte, and the compressor adds one byte.
use jibs.Prelude.{
  ℕ, ◌+◌, ◌%◌, ◌/◌, true, false, List, [], ◌∷◌, ◌++◌, Option, none, some, ◌≡◌, refl, All, Bytes,
  bytes_eq, codes, drop, arith,
}
use jibs.Prelude.Decimal.{decimal, decimal_i64}
use jibs.Prelude.Int.{pos}
use jibs.Prelude.Result.{Result, ok, err}
use jibs.Prelude.Words.{to_le_bytes}
use jibs.Protocol.Framing.{Bincode}
use jibs.Protocol.Framing.Words.{or_flag, raw_chunk_header_len}
use jibs.Protocol.Messages.{ServerMessage, table_data}
use jibs.Protocol.Plan.{ColumnDef, AnonymizeRule, AnonymizeTarget, zstd}
use jibs.Client.Loader.{maybe_decompress}
use jibs.Client.Receive.{recv_message}
use jibs.Client.Receive.Chunk.{Decodes, take_encoded_chunk-recv_message}
use jibs.Server.Keys.Values.{MySqlValue}
use jibs.Server.Tsv.Escape.{
  IsClean, escape_tsv_bytes, escaped, unescape, escape_tsv_bytes-escaped, unescape-escape_tsv_bytes,
}
use jibs.Server.Tsv.Foreign.{Crates}
use jibs.Server.Tsv.New.{find_rule, AllAgreeUnruled, new, new-private}
use jibs.Server.Tsv.Privacy.{write_rows}
use jibs.Server.Tsv.{TsvWriter, take_encoded_chunk}

abbrev first_choice : List Bytes → Option Bytes
first_choice [] = none
first_choice (p ∷ pool) = some p

abbrev hex : Bytes → Bytes
hex [] = []
hex (b ∷ bs) = (b'a' + b / 16) ∷ (b'a' + b % 16) ∷ hex bs

abbrev crates : Crates ℕ
crates = record {
  choose = λ pool r. (first_choice pool, r + 1);
  hex_encode = hex;
  format_i64 = decimal_i64;
  format_u64 = decimal;
  format_f32 = decimal;
  format_f64 = decimal;
  zstd_encode = λ text. ok (1 ∷ text);
}

abbrev decode_all : Bytes → Result Bytes Bytes
decode_all [] = err []
decode_all (b ∷ text) = ok text

decode_all-Decodes : Decodes crates decode_all
unfolding Decodes
decode_all-Decodes text compressed e = let same : compressed ≡ 1 ∷ text = cc e in rw same refl

abbrev column : Bytes → ColumnDef
column name = record {
  name = name;
  type_name = codes "VARCHAR";
  full_type = codes "varchar(40)";
  max_length = some 40;
  nullable = true;
  is_primary_key = false;
  charset = none;
  collation = none;
  flags = record { unsigned = false; zerofill = false; binary = false; auto_increment = false };
}

abbrev defs : List ColumnDef
defs = column (codes "id") ∷ column (codes "email") ∷ []

abbrev rules : List AnonymizeRule
rules = record { column = codes "email"; target = AnonymizeTarget.faker (codes "email") } ∷ []

abbrev fakers : List (Bytes × List Bytes)
fakers = (codes "email", codes "user{unique()}@example.org" ∷ []) ∷ []

abbrev row : Bytes → List MySqlValue
row email = MySqlValue.int (pos 7) ∷ MySqlValue.bytes email ∷ []

row_pairs :
    AllAgreeUnruled rules defs
      (row (codes "ada@home") ∷ row (codes "bob@home") ∷ [])
      (row (codes "eve@home") ∷ row [] ∷ [])
unfolding find_rule bytes_eq
row_pairs = (((λ _. refl), (λ e. cc e, tt)), (((λ _. refl), (λ e. cc e, tt)), tt))

new-private_example :
    write_rows crates
      (new 0 defs rules fakers)
      (row (codes "ada@home") ∷ row (codes "bob@home") ∷ [])
    ≡ write_rows crates (new 0 defs rules fakers) (row (codes "eve@home") ∷ row [] ∷ [])
new-private_example =
    new-private crates 0 defs rules fakers (row (codes "ada@home") ∷ row (codes "bob@home") ∷ [])
      (row (codes "eve@home") ∷ row [] ∷ []) row_pairs

-- A writer with one row, and no message but raw chunks.
abbrev writer : TsvWriter ℕ
writer = record {
  buffer = 0 ∷ 0 ∷ 0 ∷ 0 ∷ 0 ∷ 0 ∷ 0 ∷ 0 ∷ codes "7\tx\n";
  columns = [];
  faker_pools = [];
  faker_pools_raw = [];
  rng = 0;
  unique_counter = 0;
}

abbrev taken_chunk : Bytes
taken_chunk = 13 ∷ 0 ∷ 0 ∷ 128 ∷ 2 ∷ 0 ∷ 1 ∷ 0 ∷ 4 ∷ 0 ∷ 0 ∷ 0 ∷ 1 ∷ codes "7\tx\n"

abbrev emptied_writer : TsvWriter ℕ
emptied_writer = record writer { buffer = 0 ∷ 0 ∷ 0 ∷ 0 ∷ 0 ∷ 0 ∷ 0 ∷ 0 ∷ [] }

abbrev no_codec : Bincode ServerMessage
no_codec = record {
  encode_to_vec = λ _. ok [];
  encode_into = λ _. ([], ok tt);
  decode_from_slice = λ _. ok (table_data 0 0 [], 0);
}

take_encoded_chunk-recv_message_example :
    ((payload : Bytes) × (recv_message no_codec 100 (taken_chunk ++ codes "next")
        ≡ (ok (table_data 2 1 payload), codes "next"))
      × (maybe_decompress decode_all payload zstd ≡ ok (drop raw_chunk_header_len writer.buffer)))
    × (drop raw_chunk_header_len emptied_writer.buffer ≡ [])
unfolding take_encoded_chunk to_le_bytes or_flag
take_encoded_chunk-recv_message_example =
    take_encoded_chunk-recv_message crates decode_all decode_all-Decodes no_codec 100 (codes "next")
      2 1 (omega arith) (omega arith) zstd writer emptied_writer taken_chunk refl (omega arith)
      (omega arith) (omega arith)

-- A tab, a line feed, a backslash and a NUL in one field.
unescape-escape_tsv_bytes_example :
    (unescape (escape_tsv_bytes [] (9 ∷ 10 ∷ 92 ∷ 0 ∷ [])) ≡ 9 ∷ 10 ∷ 92 ∷ 0 ∷ [])
    × All IsClean (escape_tsv_bytes [] (9 ∷ 10 ∷ 92 ∷ 0 ∷ []))
unescape-escape_tsv_bytes_example = unescape-escape_tsv_bytes (9 ∷ 10 ∷ 92 ∷ 0 ∷ [])

escape_tsv_bytes-escaped_example :
    escape_tsv_bytes (codes "id") (9 ∷ codes "x") ≡ codes "id" ++ escaped (9 ∷ codes "x")
escape_tsv_bytes-escaped_example = escape_tsv_bytes-escaped (codes "id") (9 ∷ codes "x")
