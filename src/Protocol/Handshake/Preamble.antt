-- ===== src/Protocol/Handshake/Preamble.antt =====
-- Which preambles a side accepts, and which error it gives for the others.
use jibs.Prelude.{
  ℕ, ◌≡◌, ◌≢◌, ◌↔◌, ◌<◌, refl, sym, ap, ◌∙◌, inl, inr, All, Bytes, bytes_eq, bytes_eq_iff, length,
  take, take-append-drop, length-drop, All-drop, drop, Bool-cases, arith, ◌==◌, ==_iff,
}
use jibs.Prelude.Result.{ok, err}
use jibs.Prelude.Words.{from_le_bytes, to_le_bytes-from_le_bytes}
use jibs.Protocol.Handshake.{
  protocol_magic, protocol_version, preamble_len, encode_preamble, bad_magic, version_mismatch,
  validate_preamble,
}

abbrev IsByte : ℕ → Type 0
IsByte b = b < 256

-- A buffer of eight bytes is accepted exactly if it is this side's preamble. Else the error is
-- `bad_magic` with the first four bytes if these are not the magic, and `version_mismatch` with the
-- little-endian number of the last four if the magic is right and that number is another version.
pub validate_preamble_correct :
    (buf : Bytes)
    → length buf ≡ preamble_len
    → All IsByte buf
    → ((validate_preamble buf ≡ ok tt) ↔ (buf ≡ encode_preamble))
      × ((take 4 buf ≢ protocol_magic) → validate_preamble buf ≡ err (bad_magic (take 4 buf)))
      × (take 4 buf ≡ protocol_magic
          → from_le_bytes (drop 4 buf) ≢ protocol_version
          → validate_preamble buf ≡ err (version_mismatch (from_le_bytes (drop 4 buf))))
unfolding validate_preamble encode_preamble from_le_bytes
validate_preamble_correct buf size small =
    let tail : length (drop 4 buf) ≡ 4 = omega (arith, length-drop 4 buf) in
    let back = to_le_bytes-from_le_bytes (drop 4 buf) (All-drop IsByte 4 buf small) in
    let halves = take-append-drop 4 buf in
    elim (Bool-cases (bytes_eq (take 4 buf) protocol_magic)) [
      | inr strange ↦
          let other : take 4 buf ≢ protocol_magic =
            λ e. cc (strange, (bytes_eq_iff (take 4 buf) protocol_magic).1 e) in
          rw strange
            ((λ e. cc e, λ e. absurd (other (ap (take 4) e))), λ _. refl, λ e _. absurd (other e))
      | inl magic ↦
          let same = (bytes_eq_iff (take 4 buf) protocol_magic).0 magic in
          rw magic (elim (Bool-cases (from_le_bytes (drop 4 buf) == protocol_version)) [
            | inl current ↦
                let version = (==_iff (from_le_bytes (drop 4 buf)) protocol_version).0 current in
                rw current (
                  (λ _. sym halves ∙ rw (same, sym (rw (tail, version) at back)) refl, λ _. refl),
                  λ other. absurd (other same),
                  λ _ other. absurd (other version),
                )
            | inr foreign ↦
                let other : from_le_bytes (drop 4 buf) ≢ protocol_version =
                  λ e. cc (foreign, (==_iff (from_le_bytes (drop 4 buf)) protocol_version).1 e) in
                rw foreign (
                  (λ e. cc e, λ e. absurd (other (ap (λ t. from_le_bytes (drop 4 t)) e))),
                  λ strange. absurd (strange same),
                  λ _ _. refl,
                )
          ])
    ]
