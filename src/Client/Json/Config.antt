-- ===== src/Client/Json/Config.antt =====
-- crates/client/src/json_config.rs: the structure of a JSON config.
--
-- A `HashMap` of the config is only walked: it is the list of its entries in that order. Of a
-- `serde_json::Value` the code looks at the variants; a number is what `as_i64` and `as_f64` say of it.
use jibs.Prelude.{ℕ, List, Option, Bool, Bytes}
use jibs.Prelude.Int.{ℤ}

mutual
  pub data Json : Type 0 where
    null : Json
    bool : Bool → Json
    number : Option ℤ → Option ℕ → Json
    string : Bytes → Json
    array : Jsons → Json
    object : Json

  -- `Vec<serde_json::Value>`
  pub data Jsons : Type 0 where
    no_json : Jsons
    a_json : Json → Jsons → Jsons

pub record JsonVariable : Type 0 where
  pub name : Bytes
  pub var_type : Bytes
  pub default : Option Json

pub record JsonFaker : Type 0 where
  pub name : Bytes
  pub faker_values : List Bytes
  pub condition : Option Bytes

pub data JsonFakers : Type 0 where
  map_of : List (Bytes × List Bytes) → JsonFakers
  array_of : List JsonFaker → JsonFakers
  no_faker : JsonFakers

pub record JsonAnonymizeRule : Type 0 where
  pub column : Bytes
  pub faker : Option Bytes
  pub to_null : Option Bool

pub record JsonAnonymizeBlock : Type 0 where
  pub table : Bytes
  pub rules : List JsonAnonymizeRule
  pub condition : Option Bytes

pub data JsonAnonymizeBlocks : Type 0 where
  map_of : List (Bytes × List JsonAnonymizeRule) → JsonAnonymizeBlocks
  array_of : List JsonAnonymizeBlock → JsonAnonymizeBlocks
  no_block : JsonAnonymizeBlocks

pub record JsonImport : Type 0 where
  pub path : Bytes
  pub condition : Option Bytes

pub record JsonRelation : Type 0 where
  pub source : Bytes
  pub target : Bytes
  pub condition : Option Bytes

pub record JsonTableRef : Type 0 where
  pub table : Bytes
  pub condition : Option Bytes

pub data JsonOrderBy : Type 0 where
  simple : Bytes → JsonOrderBy
  full : Bytes → Option Bytes → JsonOrderBy

pub data JsonLimit : Type 0 where
  number : ℤ → JsonLimit
  variable : Bytes → JsonLimit

pub record JsonAggregate : Type 0 where
  pub name : Bytes
  pub root : Bytes
  pub where_clause : Option Bytes
  pub order_by : Option JsonOrderBy
  pub limit : Option JsonLimit
  pub condition : Option Bytes

pub record JsonInclude : Type 0 where
  pub aggregate : Bytes
  pub where_clause : Option Bytes
  pub condition : Option Bytes

pub record JsonPreserve : Type 0 where
  pub table : Bytes
  pub where_clause : Bytes
  pub condition : Option Bytes

pub record JsonSet : Type 0 where
  pub table : Bytes
  pub match_clause : List (Bytes × Json)
  pub assigned : List (Bytes × Json)
  pub condition : Option Bytes

pub record JsonAfter : Type 0 where
  pub sql : Bytes
  pub condition : Option Bytes

pub record JsonConfig : Type 0 where
  pub variable : List JsonVariable
  pub imports : List JsonImport
  pub faker : JsonFakers
  pub relation : List JsonRelation
  pub exclude : List JsonTableRef
  pub ignore : List JsonTableRef
  pub ignore_relation : List JsonRelation
  pub anonymize : JsonAnonymizeBlocks
  pub aggregate : List JsonAggregate
  pub includes : List JsonInclude
  pub preserve : List JsonPreserve
  pub sets : List JsonSet
  pub after : List JsonAfter
