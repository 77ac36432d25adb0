-- ===== src/Server/Walk/Invariant.antt =====
-- The invariant of the walk over one aggregate, and that a round keeps it.
use jibs.Prelude.{
  Bool, true, false, List, some, ◌≡◌, ◌∙◌, ◌⊎◌, inl, inr, ◌↔◌, arith, Bytes, insert, In,
}
use jibs.Protocol.Plan.{Relation}
use jibs.Server.Walk.Index.{In-build_index}
use jibs.Server.Walk.Reach.{IsOpen, Reach, forward, backward}
use jibs.Server.Walk.Round.{Advance, offer_all-Advance}
use jibs.Server.Walk.{Visit, Walk, covers, admits, offer_all, expand, build_index, relations_of}

pub admits_iff :
    (importable full exclude : List Bytes) (t : Bytes)
    → (admits importable full exclude t ≡ true) ↔ IsOpen importable full exclude t
unfolding admits
admits_iff importable full exclude t = ground arith

module _ (importable full exclude : List Bytes) (relations : List Relation) (root : Bytes) where
  abbrev pub by_source : List (Bytes × List Relation)
  by_source = build_index (λ rel. rel.from_table) relations

  abbrev pub by_target : List (Bytes × List Relation)
  by_target = build_index (λ rel. rel.to_table) relations

  abbrev pub Reached : Bytes → Bool → Type 0
  Reached = Reach importable (IsOpen importable full exclude) relations root

  abbrev pub Admitted : Bytes → Type 0
  Admitted t = admits importable full exclude t ≡ true

  -- The relations of `t` that a visit follows lead to explored tables.
  pub record Expanded (s : Walk) (t : Bytes) (b : Bool) : Type 0 where
    pub along :
        (rel : Relation)
        → In rel relations
        → rel.from_table ≡ t
        → Admitted rel.to_table
        → covers false (s.explored rel.to_table) ≡ true
    pub against :
        (rel : Relation)
        → b ≡ true
        → In rel relations
        → rel.to_table ≡ t
        → Admitted rel.from_table
        → covers true (s.explored rel.from_table) ≡ true

  -- From `s` to `s'`, where the relations of one visit have been followed.
  pub record Follows (t : Bytes) (b : Bool) (s s' : Walk) : Type 0 where
    pub keeps_queue : (v : Visit) → In v s.queue → In v s'.queue
    pub new_queue : (u : Bytes) (c : Bool) → In (u, c) s'.queue → In (u, c) s.queue ⊎ Reached u c
    pub keeps_explored :
        (u : Bytes) (c : Bool) → covers c (s.explored u) ≡ true → covers c (s'.explored u) ≡ true
    pub new_explored :
        (u : Bytes) (c : Bool)
        → s'.explored u ≡ some c
        → (s.explored u ≡ some c) ⊎ In (u, c) s'.queue
    pub same_potential : s'.potential ≡ s.potential
    pub expanded : Expanded s' t b

  module _ (t : Bytes) (s : Walk) where
    abbrev forward_round : Walk
    forward_round =
        offer_all importable full exclude (λ rel. rel.to_table) false s (relations_of t by_source)

    abbrev backward_round : Walk
    backward_round =
        offer_all importable full exclude (λ rel. rel.from_table) true forward_round
          (relations_of t by_target)

    Reached-forward :
        (u : Bytes) (b c : Bool) (rel : Relation)
        → Reached t b
        → In rel (relations_of t by_source)
        → rel.to_table ≡ u
        → c ≡ false
        → Admitted u
        → Reached u c
    Reached-forward u b c rel r m e f o =
        let (m', e') = (In-build_index (λ x. x.from_table) t rel relations).0 m in
        rw f (forward rel r m' e' e ((admits_iff importable full exclude u).0 o))

    Reached-backward :
        (u : Bytes) (c : Bool) (rel : Relation)
        → Reached t true
        → In rel (relations_of t by_target)
        → rel.from_table ≡ u
        → c ≡ true
        → Admitted u
        → Reached u c
    Reached-backward u c rel r m e f o =
        let (m', e') = (In-build_index (λ x. x.to_table) t rel relations).0 m in
        rw f (backward rel r m' e' e ((admits_iff importable full exclude u).0 o))

    abbrev AdvanceForward : Type 0
    AdvanceForward =
        Advance importable full exclude (λ rel. rel.to_table) false (relations_of t by_source) s
          forward_round

    advance_forward : AdvanceForward
    advance_forward =
        offer_all-Advance importable full exclude (λ rel. rel.to_table) false
          (relations_of t by_source) s

    abbrev AdvanceBackward : Type 0
    AdvanceBackward =
        Advance importable full exclude (λ rel. rel.from_table) true (relations_of t by_target)
          forward_round backward_round

    advance_backward : AdvanceBackward
    advance_backward =
        offer_all-Advance importable full exclude (λ rel. rel.from_table) true
          (relations_of t by_target) forward_round

    new_queue-forward :
        (b : Bool)
        → Reached t b
        → (u : Bytes) (c : Bool) → In (u, c) forward_round.queue
        → In (u, c) s.queue ⊎ Reached u c
    new_queue-forward b r u c h = elim (advance_forward.new_queue u c h) [
      | inl old ↦ inl old
      | inr (rel, m, e, f, o) ↦ inr (Reached-forward u b c rel r m e f o)
    ]

    along-forward :
        (rel : Relation)
        → In rel relations
        → rel.from_table ≡ t
        → Admitted rel.to_table
        → covers false (forward_round.explored rel.to_table) ≡ true
    along-forward rel m e o =
        advance_forward.reached rel ((In-build_index (λ x. x.from_table) t rel relations).1 (m, e))
          o

    Follows-forward : Reached t false → Follows t false s forward_round
    Follows-forward r = record {
      keeps_queue = advance_forward.keeps_queue;
      new_queue = new_queue-forward false r;
      keeps_explored = advance_forward.keeps_explored;
      new_explored = advance_forward.new_explored;
      same_potential = advance_forward.same_potential;
      expanded = record { along = along-forward; against = λ rel h m e o. cc };
    }

    Follows-backward : Reached t true → Follows t true s backward_round
    Follows-backward r =
        let first = advance_forward in
        let second = advance_backward in
        record {
          keeps_queue = λ v h. second.keeps_queue v (first.keeps_queue v h);
          new_queue = λ u c h. elim (second.new_queue u c h) [
            | inl old ↦ new_queue-forward true r u c old
            | inr (rel, m, e, f, o) ↦ inr (Reached-backward u c rel r m e f o)
          ];
          keeps_explored = λ u c h. second.keeps_explored u c (first.keeps_explored u c h);
          new_explored = λ u c h. elim (second.new_explored u c h) [
            | inl old ↦ elim (first.new_explored u c old) [
              | inl older ↦ inl older
              | inr waits ↦ inr (second.keeps_queue (u, c) waits)
            ]
            | inr waits ↦ inr waits
          ];
          same_potential = second.same_potential ∙ first.same_potential;
          expanded = record {
            along = λ rel m e o. second.keeps_explored rel.to_table false (along-forward rel m e o);
            against = λ rel _ m e o.
                second.reached rel ((In-build_index (λ x. x.to_table) t rel relations).1 (m, e)) o;
          };
        }

  -- One round follows the relations of its visit, from the state with the table noted.
  pub Follows-expand :
      (t : Bytes) (b : Bool) (s : Walk)
      → Reached t b
      → Follows t b
          (record s { potential = insert t s.potential })
          (expand importable full exclude by_source by_target t b s)
  unfolding expand
  Follows-expand t false s r = Follows-forward t (record s { potential = insert t s.potential }) r
  Follows-expand t true s r = Follows-backward t (record s { potential = insert t s.potential }) r
