-- ===== src/Server/Tsv/New.antt =====
-- `TsvWriter::new`: the anonymization of each column, looked up once.
use jibs.Prelude.{
  ℕ, suc, ◌+◌, Bool, false, ◌||◌, List, [], ◌∷◌, ◌++◌, Option, none, some, ◌≡◌, arith, map, Bytes,
  bytes_eq, if◌then◌else◌, length, get_elem?, get_or, replicate, Option-cases, inl, inr,
}
use jibs.Prelude.Replace.{has_substring}
use jibs.Protocol.Framing.Words.{raw_chunk_header_len}
use jibs.Protocol.Plan.{ColumnDef, is_binary_type, AnonymizeRule, AnonymizeTarget}
use jibs.Server.Keys.Values.{MySqlValue}
use jibs.Server.Tsv.Escape.{escape_tsv_bytes}
use jibs.Server.Tsv.Foreign.{Crates}
use jibs.Server.Tsv.Privacy.{AgreeFrom, AgreeRows, write_rows, write_rows-private}
use jibs.Server.Tsv.{AnonAction, to_null, faker, faker_unique, Column, TsvWriter, unique_sentinel}

pub record Pools : Type 0 where
  pub names : List Bytes
  pub escaped : List (List Bytes)
  pub raw : List (List Bytes)

-- `iter().position(|n| n == name)`
pub position : Bytes → List Bytes → Option ℕ
position name [] = none
position name (n ∷ names) =
    if bytes_eq n name
    then some 0
    else (elim (position name names) [ none ↦ none | some i ↦ some (suc i) ])

-- `fakers.get(name).cloned().unwrap_or_default()`
pub faker_values : List (Bytes × List Bytes) → Bytes → List Bytes
faker_values [] name = []
faker_values ((n, values) ∷ fakers) name =
    if bytes_eq n name then values else faker_values fakers name

pub get_or_create_pool : List (Bytes × List Bytes) → Bytes → Pools → ℕ × Pools
unfolding position faker_values
get_or_create_pool fakers name pools = elim (position name pools.names) [
  | some i ↦ (i, pools)
  | none ↦
      let raw = faker_values fakers name in
      (
        length pools.names,
        record {
          names = pools.names ++ name ∷ [];
          escaped = pools.escaped ++ map (escape_tsv_bytes []) raw ∷ [];
          raw = pools.raw ++ raw ∷ [];
        },
      )
]

-- `iter().any(|v| v.contains(UNIQUE_SENTINEL))`
pub any_unique : List Bytes → Bool
any_unique [] = false
any_unique (v ∷ values) = has_substring unique_sentinel v || any_unique values

-- `anonymization.iter().find(|r| &r.column == col_name)`
unfoldable pub find_rule : List AnonymizeRule → Bytes → Option AnonymizeRule
find_rule [] name = none
find_rule (r ∷ rules) name = if bytes_eq r.column name then some r else find_rule rules name

-- The action of a rule's target, and the pools after it.
pub action_of : List (Bytes × List Bytes) → AnonymizeTarget → Pools → AnonAction × Pools
unfolding get_or_create_pool any_unique
action_of fakers AnonymizeTarget.to_null pools = (to_null, pools)
action_of fakers (AnonymizeTarget.faker name) pools =
    let (pool, pools') = get_or_create_pool fakers name pools in
    (if any_unique (get_or pools'.raw pool []) then faker_unique pool else faker pool, pools')

pub column_of : List AnonymizeRule → List (Bytes × List Bytes) → ColumnDef → Pools → Column × Pools
unfolding find_rule action_of
column_of rules fakers def pools = elim (find_rule rules def.name) [
  | none ↦ (record { action = none; is_binary = is_binary_type def }, pools)
  | some rule ↦
      let (action, pools') = action_of fakers rule.target pools in
      (record { action = some action; is_binary = is_binary_type def }, pools')
]

pub columns_of :
    List AnonymizeRule → List (Bytes × List Bytes) → List ColumnDef → Pools → List Column × Pools
unfolding column_of
columns_of rules fakers [] pools = ([], pools)
columns_of rules fakers (def ∷ defs) pools =
    let (c, pools') = column_of rules fakers def pools in
    let (cs, pools'') = columns_of rules fakers defs pools' in (c ∷ cs, pools'')

-- `TsvWriter::new`, with the generator that it draws from.
pub new :
    {R : Type 0} → R → List ColumnDef → List AnonymizeRule → List (Bytes × List Bytes) → TsvWriter R
unfolding columns_of
new rng column_defs anonymization fakers =
    let empty : Pools = record { names = []; escaped = []; raw = [] } in
    let (columns, pools) = columns_of anonymization fakers column_defs empty in
    record {
      buffer = replicate raw_chunk_header_len 0;
      columns = columns;
      faker_pools = pools.escaped;
      faker_pools_raw = pools.raw;
      rng = rng;
      unique_counter = 0;
    }

-- The rows agree, from column `i` on, at the columns that no rule names.
abbrev pub AgreeUnruled :
    List AnonymizeRule → ℕ → List ColumnDef → List MySqlValue → List MySqlValue → Type 0
AgreeUnruled rules i [] row row' = Unit
AgreeUnruled rules i (def ∷ defs) row row' =
    (find_rule rules def.name ≡ none → get_elem? row i ≡ get_elem? row' i)
    × AgreeUnruled rules (i + 1) defs row row'

column_of-action :
    (rules : List AnonymizeRule) (fakers : List (Bytes × List Bytes)) (def : ColumnDef)
    (pools : Pools)
    → (column_of rules fakers def pools).0.action ≡ none
    → find_rule rules def.name ≡ none
unfolding column_of
column_of-action rules fakers def pools h = elim (Option-cases (find_rule rules def.name)) [
  | inl unruled ↦ unruled
  | inr (rule, e) ↦ ground arith
]

columns_of-AgreeFrom :
    (rules : List AnonymizeRule) (fakers : List (Bytes × List Bytes)) (defs : List ColumnDef)
    (pools : Pools) (i : ℕ) (row row' : List MySqlValue)
    → AgreeUnruled rules i defs row row'
    → AgreeFrom i (columns_of rules fakers defs pools).0 row row'
unfolding columns_of
columns_of-AgreeFrom rules fakers [] pools i row row' h = tt
columns_of-AgreeFrom rules fakers (def ∷ defs) pools i row row' h = (
  λ e. h.0 (column_of-action rules fakers def pools e),
  columns_of-AgreeFrom rules fakers defs (column_of rules fakers def pools).1 (i + 1) row row' h.1,
)

-- The same of the rows of a table, one by one.
abbrev pub AllAgreeUnruled :
    List AnonymizeRule → List ColumnDef → List (List MySqlValue) → List (List MySqlValue) → Type 0
AllAgreeUnruled rules defs [] [] = Unit
AllAgreeUnruled rules defs (row ∷ rows) (row' ∷ rows') =
    AgreeUnruled rules 0 defs row row' × AllAgreeUnruled rules defs rows rows'
AllAgreeUnruled rules defs _ _ = ⊥

module _ {R : Type 0} (crates : Crates R) (rng : R) (defs : List ColumnDef)
    (rules : List AnonymizeRule) (fakers : List (Bytes × List Bytes)) where
  new-AgreeRows :
      (rows rows' : List (List MySqlValue))
      → AllAgreeUnruled rules defs rows rows'
      → AgreeRows crates (new rng defs rules fakers).columns rows rows'
  unfolding new
  new-AgreeRows [] [] h = tt
  new-AgreeRows (row ∷ rows) (row' ∷ rows') (h, hs) =
      (columns_of-AgreeFrom rules fakers defs _ 0 row row' h, new-AgreeRows rows rows' hs)
  new-AgreeRows [] (_ ∷ _) h = absurd h
  new-AgreeRows (_ ∷ _) [] h = absurd h

  -- A writer made for the columns of a table and its anonymization rules writes two sequences of
  -- rows as the same bytes, and ends in the same state, if the rows agree, one by one, at every
  -- column that no rule names: nothing of a column with a rule reaches the stream.
  pub new-private :
      (rows rows' : List (List MySqlValue))
      → AllAgreeUnruled rules defs rows rows'
      → write_rows crates (new rng defs rules fakers) rows
        ≡ write_rows crates (new rng defs rules fakers) rows'
  new-private rows rows' h =
      write_rows-private crates (new rng defs rules fakers) rows rows' (new-AgreeRows rows rows' h)
