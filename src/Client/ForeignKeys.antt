-- ===== src/Client/ForeignKeys.antt =====
-- crates/client/src/foreign_keys.rs: the statements that create foreign keys.
pub mod Names
use jibs.Prelude.{List, [], ◌∷◌, ◌++◌, map, Bytes, codes}
use jibs.Prelude.Replace.{replace, join}
use jibs.Protocol.Plan

-- `ForeignKeyDef`, a constraint of the target; that of the source is in `Plan`.
pub record TargetForeignKey : Type 0 where
  pub table : Bytes
  pub constraint : Bytes
  pub columns : List Bytes
  pub ref_schema : Bytes
  pub ref_table : Bytes
  pub ref_columns : List Bytes
  pub update_rule : Bytes
  pub delete_rule : Bytes

pub escape_ident : Bytes → Bytes
unfolding replace
escape_ident name = replace (codes "`") (codes "``") name

-- An escaped name between backticks.
abbrev pub quote : Bytes → Bytes
quote name = codes "`" ++ (escape_ident name ++ codes "`")

pub quote_list : List Bytes → Bytes
unfolding escape_ident join
quote_list cols = join (codes ", ") (map quote cols)

-- The statement, given the text of the referenced table.
pub constraint_ddl : Bytes → Bytes → List Bytes → Bytes → List Bytes → Bytes → Bytes → Bytes
unfolding quote_list
constraint_ddl table constraint columns referenced ref_columns update_rule delete_rule =
    codes "ALTER TABLE "
    ++ (quote table
        ++ (codes " ADD CONSTRAINT "
            ++ (quote constraint
                ++ (codes " FOREIGN KEY ("
                    ++ (quote_list columns
                        ++ (codes ") REFERENCES "
                            ++ (referenced
                                ++ (codes " ("
                                    ++ (quote_list ref_columns
                                        ++ (codes ") ON UPDATE "
                                            ++ (update_rule
                                                ++ (codes " ON DELETE " ++ delete_rule))))))))))))

pub build_fk_ddl : TargetForeignKey → Bytes
unfolding constraint_ddl
build_fk_ddl fk =
    constraint_ddl fk.table fk.constraint fk.columns
      (quote fk.ref_schema ++ (codes "." ++ quote fk.ref_table)) fk.ref_columns fk.update_rule
      fk.delete_rule

-- The referenced table is not qualified.
pub build_source_fk_ddl : Plan.ForeignKeyDef → Bytes
unfolding constraint_ddl
build_source_fk_ddl fk =
    constraint_ddl fk.table fk.constraint fk.columns (quote fk.ref_table) fk.ref_columns
      fk.update_rule fk.delete_rule
