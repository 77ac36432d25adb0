-- ===== src/Server/Walk/Reach.antt =====
-- The specification of the static walk: which tables an aggregate may touch, and from which of them
-- it may go backward.
use jibs.Prelude.{Bool, true, false, List, ◌≡◌, Bytes, contains, In}
use jibs.Protocol.Plan.{Relation}

-- Relations are followed into the tables that are imported, not copied in full and not excluded.
pub record IsOpen (importable full exclude : List Bytes) (t : Bytes) : Type 0 where
  pub imported : contains importable t ≡ true
  pub not_full : contains full t ≡ false
  pub not_excluded : contains exclude t ≡ false

module _ (importable : List Bytes) (Open : Bytes → Type 0) (relations : List Relation)
    (root : Bytes) where
  -- `Reach t backward`: a chain of relations leads from the root to `t`, through open tables. The
  -- root and the tables reached against a relation may go on backward, those reached along a
  -- relation may not.
  pub data Reach : Bytes → Bool → Type 0 where
    here : {t : Bytes} → contains importable root ≡ true → t ≡ root → Reach t true
    forward :
        {t u : Bytes} {b : Bool} (rel : Relation)
        → Reach t b
        → In rel relations
        → rel.from_table ≡ t
        → rel.to_table ≡ u
        → Open u
        → Reach u false
    backward :
        {t u : Bytes} (rel : Relation)
        → Reach t true
        → In rel relations
        → rel.to_table ≡ t
        → rel.from_table ≡ u
        → Open u
        → Reach u true

-- Opening more tables loses no chain.
pub Reach-map :
    (importable : List Bytes) {P Q : Bytes → Type 0} (relations : List Relation) (root : Bytes)
    {t : Bytes} {b : Bool}
    → ((u : Bytes) → P u → Q u)
    → Reach importable P relations root t b
    → Reach importable Q relations root t b
Reach-map importable relations root f (here h e) = here h e
Reach-map importable relations root f (forward {u = v} rel r m from to o) =
    forward rel (Reach-map importable relations root f r) m from to (f v o)
Reach-map importable relations root f (backward {u = v} rel r m to from o) =
    backward rel (Reach-map importable relations root f r) m to from (f v o)
