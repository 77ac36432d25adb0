-- ===== src/Protocol/Handshake.antt =====
-- crates/protocol/src/handshake.rs: the preamble of both sides, before any frame.
pub mod Preamble
use jibs.Prelude.{ℕ, ◌++◌, if◌then◌else◌, ◌==◌, Bytes, codes, bytes_eq, take, drop}
use jibs.Prelude.Io.{Io, ◌>>◌, Writer, read_exact}
use jibs.Prelude.Result.{Result, ok, err}
use jibs.Prelude.Words.{to_le_bytes, from_le_bytes}

abbrev pub protocol_magic : Bytes
protocol_magic = codes "JIBS"

abbrev pub protocol_version : ℕ
protocol_version = 2

abbrev pub preamble_len : ℕ
preamble_len = 8

unfoldable pub encode_preamble : Bytes
unfolding to_le_bytes
encode_preamble = protocol_magic ++ to_le_bytes 4 protocol_version

pub data HandshakeError : Type 0 where
  bad_magic : Bytes → HandshakeError
  version_mismatch : ℕ → HandshakeError

unfoldable pub validate_preamble : Bytes → Result HandshakeError (Unit {0})
unfolding from_le_bytes bytes_eq
validate_preamble buf =
    let magic = take 4 buf in
    if bytes_eq magic protocol_magic
    then (let peer = from_le_bytes (drop 4 buf) in
        if peer == protocol_version then ok tt else err (version_mismatch peer))
    else err (bad_magic magic)

pub write_preamble : {W : Type 0} → Writer W → Io W (Unit {0})
unfolding encode_preamble
write_preamble writer = writer.write_all encode_preamble >> writer.flush

pub read_preamble : Io Bytes Bytes
unfolding read_exact
read_preamble = read_exact preamble_len
