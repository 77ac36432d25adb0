-- ===== src/Client/Json/Values/Pieces.antt =====
-- crates/client/src/json_config.rs: strings with variables as a sequence of pieces, which is the
-- specification of `interpolate_string`.
use jibs.Prelude.{
  ℕ, Bool, true, false, ◌&&◌, List, [], ◌∷◌, ◌++◌, append-nil, append_assoc, ◌≡◌, refl, ◌∙◌, ap,
  Bytes, ◌==◌, All,
}
use jibs.Prelude.Dict.{Dict, lookup}
use jibs.Prelude.Result.{Result, ok, ◌>>=◌}
use jibs.Protocol.Plan.{Value}
use jibs.Protocol.Plan.Accessors.{as_string}
use jibs.Client.Error.{Failure}
use jibs.Client.Eval.{get_variable}
use jibs.Client.Json.Values.{
  starts_dollar, bare_text, onto, braced, is_name_char, interpolate, plain, braces, bare,
  interpolate_string,
}

-- A character that stands for itself, `{$name}`, and `$name`.
pub data Piece : Type 0 where
  char : ℕ → Piece
  braced_name : Bytes → Piece
  bare_name : Bytes → Piece

-- The string that the pieces make.
unfoldable pub spell : List Piece → Bytes
spell [] = []
spell (char c ∷ ps) = c ∷ spell ps
spell (braced_name name ∷ ps) = b'{' ∷ b'$' ∷ (name ++ b'}' ∷ spell ps)
spell (bare_name name ∷ ps) = b'$' ∷ (name ++ spell ps)

module _ (is_alphanumeric : ℕ → Bool) where
  abbrev pub starts_name : Bytes → Bool
  starts_name [] = false
  starts_name (c ∷ _) = is_name_char is_alphanumeric c

  -- Pieces that are told apart: a character that stands for itself starts no variable, a name in
  -- braces holds no closing brace, and a bare name is as long as it can be.
  unfoldable pub IsApart : List Piece → Type 0
  IsApart [] = Unit
  IsApart (char c ∷ ps) =
      ((c == b'$') ≡ false) × ((c == b'{' && starts_dollar (spell ps)) ≡ false) × IsApart ps
  IsApart (braced_name name ∷ ps) = All (λ c. (c == b'}') ≡ false) name × IsApart ps
  IsApart (bare_name name ∷ ps) =
      All (λ c. starts_name (c ∷ []) ≡ true) name × (starts_name (spell ps) ≡ false) × IsApart ps

module _ (format_f64 : ℕ → Bytes) (vars : Dict Value) where
  -- What the pieces stand for: a name in braces for its variable's value, which must be there, a bare
  -- name for the value or for itself.
  unfoldable pub meaning : List Piece → Result Failure Bytes
  unfolding get_variable lookup as_string
  meaning [] = ok []
  meaning (char c ∷ ps) = meaning ps >>= λ more. ok (c ∷ more)
  meaning (braced_name name ∷ ps) = get_variable vars name >>= λ value.
      meaning ps >>= λ more. ok (as_string format_f64 value ++ more)
  meaning (bare_name name ∷ ps) = meaning ps >>= λ more. ok (bare_text format_f64 vars name ++ more)

module _ (is_alphanumeric : ℕ → Bool) (format_f64 : ℕ → Bytes) (vars : Dict Value) where
  -- A name between braces is read to its closing brace.
  braces_run :
      (acc name s : Bytes)
      → All (λ c. (c == b'}') ≡ false) name
      → interpolate is_alphanumeric format_f64 vars (braces acc) (name ++ b'}' ∷ s)
        ≡ braced format_f64 vars (acc ++ name) (interpolate is_alphanumeric format_f64 vars plain s)
  unfolding interpolate
  braces_run acc [] s _ = rw (append-nil acc) refl
  braces_run acc (c ∷ name) s (other, others) =
      rw other (braces_run (acc ++ c ∷ []) name s others ∙ rw append_assoc refl)

  bare_run :
      (acc name s : Bytes)
      → All (λ c. starts_name is_alphanumeric (c ∷ []) ≡ true) name
      → interpolate is_alphanumeric format_f64 vars (bare acc) (name ++ s)
        ≡ interpolate is_alphanumeric format_f64 vars (bare (acc ++ name)) s
  unfolding interpolate
  bare_run acc [] s _ = rw (append-nil acc) refl
  bare_run acc (c ∷ name) s (first, more) =
      rw first (bare_run (acc ++ c ∷ []) name s more ∙ rw append_assoc refl)

  bare_end :
      (name s : Bytes)
      → starts_name is_alphanumeric s ≡ false
      → interpolate is_alphanumeric format_f64 vars (bare name) s
        ≡ onto
            (bare_text format_f64 vars name)
            (interpolate is_alphanumeric format_f64 vars plain s)
  unfolding interpolate
  bare_end name [] _ = rw (append-nil (bare_text format_f64 vars name)) refl
  bare_end name (c ∷ s) ends = rw ends refl

-- A string that is spelled by pieces which are told apart is interpolated to what they stand for, or
-- fails with the error of the first name in braces that is no variable.
pub interpolate_string-spell :
    (is_alphanumeric : ℕ → Bool) (format_f64 : ℕ → Bytes) (vars : Dict Value) (ps : List Piece)
    → IsApart is_alphanumeric ps
    → interpolate_string is_alphanumeric format_f64 vars (spell ps) ≡ meaning format_f64 vars ps
unfolding interpolate_string interpolate meaning spell IsApart
interpolate_string-spell is_alnum format_f64 vars [] _ = refl
interpolate_string-spell is_alnum format_f64 vars (char c ∷ ps) (no_dollar, no_brace, more) =
    rw (no_brace, no_dollar)
      (ap (onto (c ∷ [])) (interpolate_string-spell is_alnum format_f64 vars ps more))
interpolate_string-spell is_alnum format_f64 vars (braced_name name ∷ ps) (others, more) =
    braces_run is_alnum format_f64 vars [] name (spell ps) others
    ∙ ap (braced format_f64 vars name) (interpolate_string-spell is_alnum format_f64 vars ps more)
interpolate_string-spell is_alnum format_f64 vars (bare_name name ∷ ps) (chars, ends, more) =
    bare_run is_alnum format_f64 vars [] name (spell ps) chars
    ∙ bare_end is_alnum format_f64 vars name (spell ps) ends
    ∙ ap (onto (bare_text format_f64 vars name))
        (interpolate_string-spell is_alnum format_f64 vars ps more)
