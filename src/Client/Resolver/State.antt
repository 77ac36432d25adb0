-- ===== src/Client/Resolver/State.antt =====
-- crates/client/src/resolver.rs: the state of the resolver, and what it takes from outside.
use jibs.Prelude.{
  ℕ, Bool, true, false, List, [], ◌∷◌, ◌++◌, map, Option, none, some, if◌then◌else◌, Bytes,
  bytes_eq, codes, ◌||◌, leb, ◌&&◌, ◌+◌,
}
use jibs.Prelude.Dict
use jibs.Prelude.Dict.{Dict, lookup, has_key}
use jibs.Prelude.Int.{pos}
use jibs.Prelude.Result.{Result, ok, err}
use jibs.Parser.Ast.{VarType}
use jibs.Parser.Chars.{Chars}
use jibs.Parser.Lexer.{ParseError}
use jibs.Protocol.Plan
use jibs.Protocol.Plan.{ExecutionPlan, empty_plan, Value, AnonymizeRule, AnonymizeTarget}
use jibs.Client.Error.{Failure}
use jibs.Client.Eval.{wrong_type}
use jibs.Client.Statements.Parts.{ResolvedGetFunction}

-- A declaration: its type and the value of its default.
abbrev pub Pending : Type 0
Pending = VarType × Option Value

pub record Host : Type 0 where
  -- `base_path.parent().unwrap_or(".").join(import_path)`
  pub import_file : Bytes → Bytes → Bytes
  pub canonicalize : Bytes → Result Bytes Bytes
  pub read_to_string : Bytes → Result Bytes Chars
  pub render_errors : Bytes → Chars → List ParseError → Bytes
  -- The error of `regex::Regex::new`, if there is one.
  pub regex_error : Bytes → Option Bytes
  pub pending_order : Dict Pending → Dict Pending
  pub rules_order : Dict (List AnonymizeRule) → Dict (List AnonymizeRule)

pub record Resolver : Type 0 where
  pub base_path : Bytes
  pub imported_files : List Bytes
  pub variables : Dict Value
  pub pending_vars : Dict Pending
  pub plan : ExecutionPlan
  pub get_functions : List ResolvedGetFunction
  pub missing_vars : List (Bytes × VarType)

pub record ResolvedConfig : Type 0 where
  pub plan : ExecutionPlan
  pub get_functions : List ResolvedGetFunction
  pub missing_vars : List (Bytes × VarType)

-- The files that are imported from the start: the config itself, if its path resolves.
abbrev pub first_files : Result Bytes Bytes → List Bytes
first_files (ok canonical) = canonical ∷ []
first_files (err _) = []

unfoldable pub cli_values : Dict Bytes → Dict Value
cli_values [] = []
cli_values ((k, v) ∷ vars) = (k, Plan.string v) ∷ cli_values vars

unfoldable pub placeholder_value : VarType → Value
placeholder_value VarType.string = Plan.string []
placeholder_value VarType.int = Plan.int (pos 0)
placeholder_value VarType.float = Plan.float 0
placeholder_value VarType.bool = Plan.bool false
placeholder_value VarType.string_array = Plan.string_array []
placeholder_value VarType.int_array = Plan.int_array []
placeholder_value VarType.float_array = Plan.float_array []
placeholder_value VarType.bool_array = Plan.bool_array []

-- A letter as `to_lowercase` makes it; only ASCII letters become letters of the words below.
abbrev pub lower : ℕ → ℕ
lower c = if leb b'A' c && leb c b'Z' then c + 32 else c

unfoldable pub bool_word : Bytes → Option Bool
bool_word s =
    let word = map lower s in
    if bytes_eq word (codes "true") || bytes_eq word (codes "1") || bytes_eq word (codes "yes")
    then some true
    else if bytes_eq word (codes "false") || bytes_eq word (codes "0") || bytes_eq word (codes "no")
    then some false
    else none

-- A text that was converted, or the error.
abbrev pub converted {ℓ} :
    {A : Type ℓ} → (A → Value) → Bytes → Bytes → Option A → Result Failure Value
converted f s target none =
    wrong_type (codes "Cannot convert '" ++ (s ++ (codes "' to " ++ target)))
converted f s target (some a) = ok (f a)

-- `self.variables.insert` and `self.plan.variables.insert`
unfoldable pub set_variable : Bytes → Value → Resolver → Resolver
set_variable name value s = record s {
  variables = Dict.insert name value s.variables;
  plan = record s.plan { variables = Dict.insert name value s.plan.variables };
}

abbrev pub push_missing : Bytes → VarType → Resolver → Resolver
push_missing name var_type s = record s { missing_vars = s.missing_vars ++ (name, var_type) ∷ [] }

abbrev pub with_output : Resolver → ExecutionPlan × List ResolvedGetFunction → Resolver
with_output s (plan, gets) = record s { plan = plan; get_functions = gets }

abbrev pub config_of : Resolver → ResolvedConfig
config_of s = record {
  plan = s.plan;
  get_functions = s.get_functions;
  missing_vars = s.missing_vars;
}

unfoldable pub new_resolver : Host → Bytes → Dict Bytes → Resolver
unfolding cli_values
new_resolver host base_path cli_vars = record {
  base_path = base_path;
  imported_files = first_files (host.canonicalize base_path);
  variables = cli_values cli_vars;
  pending_vars = [];
  plan = empty_plan;
  get_functions = [];
  missing_vars = [];
}
