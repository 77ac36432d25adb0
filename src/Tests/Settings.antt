-- ===== src/Tests/Settings.antt =====
-- A JSON config that imports one of the other language.
use jibs.Prelude.{
  Bool, List, true, false, [], ◌∷◌, none, some, ◌≡◌, ◌≢◌, refl, arith, contains, Bytes, bytes_eq,
  codes, if◌then◌else◌, insert,
}
use jibs.Prelude.Result.{Result, ok, err}
use jibs.Prelude.Dict.{Dict}
use jibs.Protocol.Plan
use jibs.Protocol.Plan.{Value, ExecutionPlan, empty_plan}
use jibs.Client.Eval.{Floats}
use jibs.Client.Resolver.State.{Host}
use jibs.Client.Json.Config.{JsonConfig, JsonFakers, JsonAnonymizeBlocks}
use jibs.Client.Json.State.{JsonHost}
use jibs.Client.Json.Values.{evaluate_condition_string, interpolate_string}
use jibs.Client.Json.Values.Pieces.{
  Piece, char, braced_name, bare_name, spell, IsApart, meaning, interpolate_string-spell,
}
use jibs.Parser.Lexer.{lex, trivia_round}
use jibs.Parser.Cursor.{at_end, peek, bump, cur_span, expect_ident}
use jibs.Parser.Statement.{statement}
use jibs.Parser.Token.{token_eq}
use jibs.Parser.Query.{table_pattern}
use jibs.Client.Resolver.{parse_source, resolve}
use jibs.Parser.Program.{parse}
use jibs.Parser.Chars.{Chars, span_while, is_whitespace, is_ident_char}
use jibs.Parser.Lexer.Scan.{regex_body, lookup_operator, lookup_mark, lookup_word}
use jibs.Client.Json.Resolver.{parse_json_config}
use jibs.Client.Error.{out_of_fuel}
use jibs.Client.Json.Imports.{parse_json_config_ends}
use jibs.Client.Json.Patterns.Rules.{patterns_of}
use jibs.Client.Json.Patterns.{parse_json_config-patterns}

abbrev no_floats : Floats
no_floats = record {
  of_int = λ _. 0;
  parse_f64 = λ _. none;
  format_f64 = λ _. [];
  f64_eq = λ _ _. true;
  f64_lt = λ _ _. false;
  f64_le = λ _ _. true;
  f64_add = λ a _. a;
  f64_sub = λ a _. a;
  f64_mul = λ a _. a;
  f64_div = λ a _. a;
  f64_rem = λ a _. a;
  f64_neg = λ a. a;
}

-- Two files, a.json and b.jibs.
abbrev content : Bytes → Chars
content path =
    if bytes_eq path (codes "b.jibs")
    then codes "ignore_table /^c/ ignore_table session"
    else codes "{}"

abbrev files : Host
files = record {
  import_file = λ _ path. path;
  canonicalize = λ path. ok path;
  read_to_string = λ path. ok (content path);
  render_errors = λ _ _ _. [];
  regex_error = λ _. none;
  pending_order = λ m. m;
  rules_order = λ m. m;
}

abbrev settings : JsonConfig
settings = record {
  variable = [];
  imports = record { path = codes "b.jibs"; condition = some (codes "true") } ∷ [];
  faker = JsonFakers.no_faker;
  relation = [];
  exclude = record { table = codes "logs"; condition = none } ∷ [];
  ignore = [];
  ignore_relation = [];
  anonymize = JsonAnonymizeBlocks.no_block;
  aggregate = [];
  includes = [];
  preserve = [];
  sets = [];
  after = [];
}

abbrev json_files : JsonHost
json_files = record {
  from_str = λ _. ok settings;
  extension = λ path. if bytes_eq path (codes "b.jibs") then codes "jibs" else codes "json";
  is_alphanumeric = λ _. true;
  pending_order = λ m. m;
}

abbrev plan : ExecutionPlan
plan = record empty_plan {
  excluded_tables = codes "logs" ∷ [];
  ignored_tables = codes "session" ∷ [];
}

parsed_settings : parse_json_config no_floats json_files true files 3 (codes "a.json") [] ≡ ok plan
unfolding parse_json_config evaluate_condition_string span_while is_whitespace parse_source resolve
    bytes_eq parse lookup_operator lookup_mark lookup_word is_ident_char lex trivia_round regex_body
    at_end statement peek token_eq bump table_pattern cur_span expect_ident insert
parsed_settings = refl

parse_json_config-patterns_example : patterns_of plan ≡ ([], [], [], [])
parse_json_config-patterns_example =
    parse_json_config-patterns no_floats json_files true files 3 (codes "a.json") [] plan
      parsed_settings

abbrev both : List Bytes
both = codes "a.json" ∷ codes "b.jibs" ∷ []

abbrev known_path : Bool → Bytes → Result Bytes Bytes
known_path true path = ok path
known_path false path = err (codes "no such file")

-- The same host, with no other files.
abbrev two_files : Host
two_files = record files { canonicalize = λ path. known_path (contains both path) path }

known_path-there :
    (path file : Bytes) (there : Bool)
    → known_path there path ≡ ok file
    → contains both path ≡ there
    → contains both file ≡ true
known_path-there path file true e d = let same : path ≡ file = cc e in rw (← same) d
known_path-there path file false e d = absurd (cc e)

two_files-there :
    (path file : Bytes) → two_files.canonicalize path ≡ ok file → contains both file ≡ true
two_files-there path file e = known_path-there path file (contains both path) e refl

parse_json_config_ends_example :
    parse_json_config no_floats json_files true two_files 5 (codes "a.json") [] ≢ err out_of_fuel
parse_json_config_ends_example =
    parse_json_config_ends no_floats json_files true two_files both 5 (codes "a.json") []
      two_files-there (omega arith)

-- `{$db}.t$id` where `db` is a variable.
abbrev pieces : List Piece
pieces = braced_name (codes "db") ∷ char b'.' ∷ char b't' ∷ bare_name (codes "id") ∷ []

abbrev db : Dict Value
db = (codes "db", Plan.string (codes "shop")) ∷ []

pieces-IsApart : IsApart (λ _. true) pieces
unfolding IsApart spell
pieces-IsApart = ((refl, (refl, tt)), (refl, refl, (refl, refl, ((refl, (refl, tt)), refl, tt))))

meaning-pieces : meaning (λ _. []) db pieces ≡ ok (codes "shop.t$id")
unfolding meaning bytes_eq
meaning-pieces = refl

interpolate_string-spell_example :
    interpolate_string (λ _. true) (λ _. []) db (spell pieces) ≡ meaning (λ _. []) db pieces
interpolate_string-spell_example =
    interpolate_string-spell (λ _. true) (λ _. []) db pieces pieces-IsApart
