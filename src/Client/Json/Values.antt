-- ===== src/Client/Json/Values.antt =====
-- crates/client/src/json_config.rs: strings with variables, conditions, and values.
--
-- `is_alphanumeric` of a `char` is the standard library's, a parameter; so are floats.
pub mod Pieces
use jibs.Prelude.{
  ℕ, Bool, true, false, not, ◌&&◌, ◌||◌, List, [], ◌∷◌, ◌++◌, map, Option, none, some,
  if◌then◌else◌, Bytes, bytes_eq, codes, ◌==◌,
}
use jibs.Prelude.Dict.{Dict, lookup}
use jibs.Prelude.Int.{ℤ}
use jibs.Prelude.Parse.{parse_i64}
use jibs.Prelude.Result.{Result, ok, ◌>>=◌}
use jibs.Parser.Interpolation.{trim, trim_end}
use jibs.Protocol.Plan
use jibs.Protocol.Plan.{Value}
use jibs.Protocol.Plan.Accessors.{as_string}
use jibs.Client.Error.{Failure}
use jibs.Client.Eval.{Floats, wrong_type, get_variable}
use jibs.Client.Json.Config.{Json, Jsons}
use jibs.Client.Resolver.State.{bool_word, converted, lower}

-- Where the scan of a string stands: in plain text, in front of the dollar behind a brace, in a name
-- between braces, or in a name behind a bare dollar.
pub data Mode : Type 0 where
  plain : Mode
  dollar : Mode
  braces : Bytes → Mode
  bare : Bytes → Mode

abbrev pub starts_dollar : Bytes → Bool
starts_dollar [] = false
starts_dollar (c ∷ _) = c == b'$'

-- A bare name that is no variable stays in the text.
abbrev bare_value : (ℕ → Bytes) → Bytes → Option Value → Bytes
bare_value format_f64 name none = codes "$" ++ name
bare_value format_f64 name (some value) = as_string format_f64 value

abbrev pub bare_text : (ℕ → Bytes) → Dict Value → Bytes → Bytes
bare_text format_f64 vars [] = codes "$"
bare_text format_f64 vars (c ∷ name) = bare_value format_f64 (c ∷ name) (lookup (c ∷ name) vars)

-- Text in front of what the rest of the string gives.
abbrev pub onto : Bytes → Result Failure Bytes → Result Failure Bytes
onto front rest = rest >>= λ more. ok (front ++ more)

abbrev pub braced : (ℕ → Bytes) → Dict Value → Bytes → Result Failure Bytes → Result Failure Bytes
braced format_f64 vars name rest =
    get_variable vars name >>= λ value. onto (as_string format_f64 value) rest

abbrev pub is_name_char : (ℕ → Bool) → ℕ → Bool
is_name_char is_alphanumeric c = is_alphanumeric c || c == b'_'

module _ (is_alphanumeric : ℕ → Bool) (format_f64 : ℕ → Bytes) (vars : Dict Value) where
  -- The loop of `interpolate_string`, a character a round.
  unfoldable pub interpolate : Mode → Bytes → Result Failure Bytes
  unfolding get_variable lookup as_string
  interpolate plain [] = ok []
  interpolate plain (c ∷ s) =
      let behind_brace = interpolate dollar s in
      let behind_dollar = interpolate (bare []) s in
      let kept = onto (c ∷ []) (interpolate plain s) in
      if c == b'{' && starts_dollar s
      then behind_brace
      else if c == b'$'
      then behind_dollar
      else kept
  interpolate dollar [] = ok []
  interpolate dollar (c ∷ s) = interpolate (braces []) s
  interpolate (braces name) [] = braced format_f64 vars name (ok [])
  interpolate (braces name) (c ∷ s) =
      let closed = braced format_f64 vars name (interpolate plain s) in
      let longer = interpolate (braces (name ++ c ∷ [])) s in if c == b'}' then closed else longer
  interpolate (bare name) [] = ok (bare_text format_f64 vars name)
  interpolate (bare name) (c ∷ s) =
      let longer = interpolate (bare (name ++ c ∷ [])) s in
      let behind_brace = interpolate dollar s in
      let behind_dollar = interpolate (bare []) s in
      let kept = onto (c ∷ []) (interpolate plain s) in
      if is_name_char is_alphanumeric c
      then longer
      else onto (bare_text format_f64 vars name) (
          if c == b'{' && starts_dollar s
          then behind_brace
          else if c == b'$'
          then behind_dollar
          else kept)

  unfoldable pub interpolate_string : Bytes → Result Failure Bytes
  unfolding interpolate
  interpolate_string = interpolate plain

-- The value of a variable as a condition; a null is false.
abbrev pub test_of : Value → Result Failure Bool
test_of (Plan.bool b) = ok b
test_of Plan.null = ok false
test_of _ = wrong_type (codes "Condition must evaluate to bool")

-- A literal condition.
abbrev literal_condition : Bytes → Result Failure Bool
literal_condition condition =
    let word = map lower condition in
    if bytes_eq word (codes "true")
    then ok true
    else if bytes_eq word (codes "false")
    then ok false
    else wrong_type (codes "Invalid condition: " ++ condition)

-- A condition behind `trim`: `$name`, `!$name` or a literal.
abbrev trimmed_condition : Dict Value → Bytes → Result Failure Bool
trimmed_condition vars [] = literal_condition []
trimmed_condition vars (c ∷ []) =
    if c == b'$' then get_variable vars [] >>= test_of else literal_condition (c ∷ [])
trimmed_condition vars (c ∷ d ∷ name) =
    if c == b'!' && d == b'$'
    then (get_variable vars name >>= test_of >>= λ b. ok (not b))
    else if c == b'$'
    then get_variable vars (d ∷ name) >>= test_of
    else literal_condition (c ∷ d ∷ name)

unfoldable pub evaluate_condition_string : Dict Value → Bytes → Result Failure Bool
unfolding get_variable trim_end
evaluate_condition_string vars condition = trimmed_condition vars (trim condition)

-- The condition of an entry, if it has one.
abbrev pub is_admitted : Dict Value → Option Bytes → Result Failure Bool
is_admitted vars none = ok true
is_admitted vars (some condition) = evaluate_condition_string vars condition

-- What an element must be, or the error.
abbrev or_error {ℓ} : {A : Type ℓ} → Bytes → Option A → Result Failure A
or_error message none = wrong_type message
or_error message (some a) = ok a

-- The elements of an array, the first error ending it.
unfoldable pub elements : {A : Type 0} → (Json → Result Failure A) → Jsons → Result Failure (List A)
elements f Jsons.no_json = ok []
elements f (Jsons.a_json v rest) = f v >>= λ a. elements f rest >>= λ more. ok (a ∷ more)

abbrev int_element : Bytes → Bytes → Json → Result Failure ℤ
int_element no_integer no_number (Json.number i f) = or_error no_integer i
int_element no_integer no_number _ = wrong_type no_number

abbrev float_element : Bytes → Bytes → Json → Result Failure ℕ
float_element no_float no_number (Json.number i f) = or_error no_float f
float_element no_float no_number _ = wrong_type no_number

abbrev bool_element : Bytes → Json → Result Failure Bool
bool_element message (Json.bool b) = ok b
bool_element message _ = wrong_type message

module _ (floats : Floats) (is_alphanumeric : ℕ → Bool) where
  abbrev pub interpolated : Dict Value → Bytes → Result Failure Bytes
  interpolated vars s = interpolate_string is_alphanumeric floats.format_f64 vars s

  -- `coerce_value`, whose types are words.
  unfoldable pub coerce_value : Value → Bytes → Result Failure Value
  unfolding parse_i64 bool_word
  coerce_value (Plan.string s) target =
      if bytes_eq target (codes "int")
      then converted Plan.int s (codes "int") (parse_i64 s)
      else if bytes_eq target (codes "float")
      then converted Plan.float s (codes "float") (floats.parse_f64 s)
      else if bytes_eq target (codes "bool")
      then converted Plan.bool s (codes "bool") (bool_word s)
      else ok (Plan.string s)
  coerce_value value target = ok value

  abbrev mismatch : Bytes → Result Failure Value
  mismatch var_type = wrong_type (codes "Type mismatch: expected " ++ var_type)

  abbrev string_element : Dict Value → Bytes → Json → Result Failure Bytes
  string_element vars message (Json.string s) = interpolated vars s
  string_element vars message _ = wrong_type message

  unfoldable pub json_to_value : Dict Value → Json → Bytes → Result Failure Value
  unfolding interpolate_string parse_i64 elements
  json_to_value vars (Json.number i f) var_type =
      if bytes_eq var_type (codes "int")
      then (or_error (codes "Expected integer") i >>= λ n. ok (Plan.int n))
      else if bytes_eq var_type (codes "float")
      then (or_error (codes "Expected float") f >>= λ x. ok (Plan.float x))
      else mismatch var_type
  json_to_value vars (Json.bool b) var_type =
      if bytes_eq var_type (codes "bool") then ok (Plan.bool b) else mismatch var_type
  json_to_value vars (Json.string s) var_type =
      if bytes_eq var_type (codes "string")
      then (interpolated vars s >>= λ text. ok (Plan.string text))
      else if bytes_eq var_type (codes "int")
      then converted Plan.int s (codes "int") (parse_i64 s)
      else if bytes_eq var_type (codes "float")
      then converted Plan.float s (codes "float") (floats.parse_f64 s)
      else mismatch var_type
  json_to_value vars (Json.array arr) var_type =
      if bytes_eq var_type (codes "string[]")
      then (elements (string_element vars (codes "Expected string in string array")) arr
          >>= λ strings. ok (Plan.string_array strings))
      else if bytes_eq var_type (codes "int[]")
      then (elements
            (int_element (codes "Expected integer in int array")
              (codes "Expected integer in int array"))
            arr
          >>= λ ints. ok (Plan.int_array ints))
      else if bytes_eq var_type (codes "float[]")
      then (elements
            (float_element (codes "Expected float in float array")
              (codes "Expected float in float array"))
            arr
          >>= λ fs. ok (Plan.float_array fs))
      else if bytes_eq var_type (codes "bool[]")
      then (elements (bool_element (codes "Expected boolean in bool array")) arr >>= λ bools.
          ok (Plan.bool_array bools))
      else mismatch var_type
  json_to_value vars Json.null var_type = ok Plan.null
  json_to_value vars Json.object var_type = mismatch var_type

  abbrev mixed : Bytes
  mixed = codes "Mixed types in array"

  -- An integer, else a float.
  abbrev number_value : Option ℤ → Option ℕ → Result Failure Value
  number_value (some i) f = ok (Plan.int i)
  number_value none (some f) = ok (Plan.float f)
  number_value none none = wrong_type (codes "Invalid number")

  -- An array, whose type its first element gives.
  abbrev array_value : Dict Value → Json → Jsons → Result Failure Value
  array_value vars (Json.string _) arr =
      elements (string_element vars mixed) arr >>= λ strings. ok (Plan.string_array strings)
  array_value vars (Json.number (some _) _) arr =
      elements (int_element (codes "Expected integer in array") mixed) arr >>= λ ints.
      ok (Plan.int_array ints)
  array_value vars (Json.number none _) arr =
      elements (float_element (codes "Expected number in array") mixed) arr >>= λ fs.
      ok (Plan.float_array fs)
  array_value vars (Json.bool _) arr =
      elements (bool_element mixed) arr >>= λ bools. ok (Plan.bool_array bools)
  array_value vars _ arr = wrong_type (codes "Unsupported array element type")

  unfoldable pub json_value_to_protocol_value : Dict Value → Json → Result Failure Value
  unfolding interpolate_string elements
  json_value_to_protocol_value vars (Json.string s) =
      interpolated vars s >>= λ text. ok (Plan.string text)
  json_value_to_protocol_value vars (Json.number i f) = number_value i f
  json_value_to_protocol_value vars (Json.bool b) = ok (Plan.bool b)
  json_value_to_protocol_value vars Json.null = ok Plan.null
  json_value_to_protocol_value vars (Json.array Jsons.no_json) = ok (Plan.string_array [])
  json_value_to_protocol_value vars (Json.array (Jsons.a_json v rest)) =
      array_value vars v (Jsons.a_json v rest)
  json_value_to_protocol_value vars Json.object = wrong_type (codes "Unsupported JSON value type")
