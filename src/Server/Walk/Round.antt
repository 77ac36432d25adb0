-- ===== src/Server/Walk/Round.antt =====
-- One round of the walk: what the loops over the relations change.
use jibs.Prelude.{
  ℕ, suc, ◌+◌, ◌≤◌, Bool, true, false, List, [], ◌∷◌, Option, none, some, ◌≡◌, refl, ◌∙◌, ◌⊎◌, inl,
  inr, ◌*◌, arith, Bytes, bytes_eq_iff, contains, insert, length, In,
}
use jibs.Protocol.Plan.{Relation}
use jibs.Server.Walk.{
  Visit, Walk, covers, should_visit, push, admits, offer, offer_all, expand, relations_of, start,
}

-- How much a table may still be raised: twice, once, not at all.
abbrev pub room : Option Bool → ℕ
room none = 2
room (some false) = 1
room (some true) = 0

abbrev pub total_room : List Bytes → (Bytes → Option Bool) → ℕ
total_room [] explored = 0
total_room (t ∷ ts) explored = room (explored t) + total_room ts explored

module _ (importable full exclude : List Bytes) (target : Relation → Bytes) (cap : Bool) where
  -- What the loop over `rels` does to the state.
  pub record Advance (rels : List Relation) (s s' : Walk) : Type 0 where
    pub keeps_queue : (v : Visit) → In v s.queue → In v s'.queue
    pub new_queue :
        (t : Bytes) (b : Bool)
        → In (t, b) s'.queue
        → In (t, b) s.queue
          ⊎ ((rel : Relation) × In rel rels
              × (target rel ≡ t)
              × (b ≡ cap)
              × (admits importable full exclude t ≡ true))
    pub keeps_explored :
        (t : Bytes) (c : Bool) → covers c (s.explored t) ≡ true → covers c (s'.explored t) ≡ true
    pub new_explored :
        (t : Bytes) (b : Bool)
        → s'.explored t ≡ some b
        → (s.explored t ≡ some b) ⊎ In (t, b) s'.queue
    pub reached :
        (rel : Relation)
        → In rel rels
        → admits importable full exclude (target rel) ≡ true
        → covers cap (s'.explored (target rel)) ≡ true
    pub same_potential : s'.potential ≡ s.potential

  keeps_queue-offer :
      (s : Walk) (rel : Relation) (v : Visit)
      → In v s.queue
      → In v (offer importable full exclude target cap s rel).queue
  unfolding offer
  keeps_queue-offer s rel v = ground arith

  new_queue-offer :
      (s : Walk) (rel : Relation) (t : Bytes) (b : Bool)
      → In (t, b) (offer importable full exclude target cap s rel).queue
      → In (t, b) s.queue
        ⊎ ((target rel ≡ t) × (b ≡ cap) × (admits importable full exclude t ≡ true))
  unfolding offer
  new_queue-offer s rel t b = ground arith

  keeps_explored-offer :
      (s : Walk) (rel : Relation) (t : Bytes) (c : Bool)
      → covers c (s.explored t) ≡ true
      → covers c ((offer importable full exclude target cap s rel).explored t) ≡ true
  unfolding offer
  keeps_explored-offer s rel t c = ground (arith, bytes_eq_iff (target rel) t)

  new_explored-offer :
      (s : Walk) (rel : Relation) (t : Bytes) (b : Bool)
      → (offer importable full exclude target cap s rel).explored t ≡ some b
      → (s.explored t ≡ some b) ⊎ In (t, b) (offer importable full exclude target cap s rel).queue
  unfolding offer
  new_explored-offer s rel t b = ground (arith, bytes_eq_iff (target rel) t)

  reached-offer :
      (s : Walk) (rel : Relation)
      → admits importable full exclude (target rel) ≡ true
      → covers cap ((offer importable full exclude target cap s rel).explored (target rel)) ≡ true
  unfolding offer
  reached-offer s rel h = ground (arith, bytes_eq_iff (target rel) (target rel))

  same_potential-offer :
      (s : Walk) (rel : Relation)
      → (offer importable full exclude target cap s rel).potential ≡ s.potential
  unfolding offer
  same_potential-offer s rel = ground arith

  pub offer_all-Advance :
      (rels : List Relation) (s : Walk)
      → Advance rels s (offer_all importable full exclude target cap s rels)
  unfolding offer_all
  offer_all-Advance [] s = record {
    keeps_queue = λ v h. h;
    new_queue = λ t b h. inl h;
    keeps_explored = λ t c h. h;
    new_explored = λ t b h. inl h;
    reached = λ rel h. absurd h;
    same_potential = refl;
  }
  offer_all-Advance (rel ∷ rels) s =
      let mid = offer importable full exclude target cap s rel in
      let later = offer_all-Advance rels mid in
      record {
        keeps_queue = λ v h. later.keeps_queue v (keeps_queue-offer s rel v h);
        new_queue = λ t b h. elim (later.new_queue t b h) [
          | inl old ↦ elim (new_queue-offer s rel t b old) [
            | inl older ↦ inl older
            | inr (e, c, a) ↦ inr (rel, inl refl, e, c, a)
          ]
          | inr (r, m, e, c, a) ↦ inr (r, inr m, e, c, a)
        ];
        keeps_explored = λ t c h. later.keeps_explored t c (keeps_explored-offer s rel t c h);
        new_explored = λ t b h. elim (later.new_explored t b h) [
          | inl old ↦ elim (new_explored-offer s rel t b old) [
            | inl older ↦ inl older
            | inr waits ↦ inr (later.keeps_queue (t, b) waits)
          ]
          | inr waits ↦ inr waits
        ];
        reached = λ r m a. elim m [
          | inl e ↦ later.keeps_explored (target r) cap (rw e (reached-offer s rel (rw e at a)))
          | inr m' ↦ later.reached r m' a
        ];
        same_potential = later.same_potential ∙ same_potential-offer s rel;
      }

-- A raise takes room from every copy of the table in the list.
total_room-push :
    (ts : List Bytes) (t : Bytes) (backward : Bool) (s : Walk)
    → should_visit s.explored t backward ≡ true
    → (total_room ts (push t backward s).explored ≤ total_room ts s.explored)
      × (contains ts t ≡ true
          → suc (total_room ts (push t backward s).explored) ≤ total_room ts s.explored)
unfolding push should_visit contains
total_room-push [] t backward s h = ground arith
total_room-push (x ∷ ts) t backward s h =
    ground (arith, total_room-push ts t backward s h, bytes_eq_iff t x, bytes_eq_iff x t)

-- The visits left: those on the stack, and those that may still be pushed.
abbrev pub work : List Bytes → Walk → ℕ
work importable s = total_room importable s.explored + length s.queue

module _ (importable full exclude : List Bytes) (target : Relation → Bytes) (cap : Bool) where
  work-offer :
      (s : Walk) (rel : Relation)
      → work importable (offer importable full exclude target cap s rel) ≤ work importable s
  unfolding offer
  work-offer s rel = ground (arith, total_room-push importable (target rel) cap s)

  pub work-offer_all :
      (rels : List Relation) (s : Walk)
      → work importable (offer_all importable full exclude target cap s rels) ≤ work importable s
  unfolding offer_all
  work-offer_all [] s = omega arith
  work-offer_all (rel ∷ rels) s = omega (
    arith,
    work-offer s rel,
    work-offer_all rels (offer importable full exclude target cap s rel),
  )

module _ (importable full exclude : List Bytes)
    (by_source by_target : List (Bytes × List Relation)) where
  pub work-expand :
      (t : Bytes) (b : Bool) (s : Walk)
      → work importable (expand importable full exclude by_source by_target t b s)
        ≤ work importable s
  unfolding expand
  work-expand t b s =
      let kept = record s { potential = insert t s.potential } in
      let first =
        work-offer_all importable full exclude (λ rel. rel.to_table) false
          (relations_of t by_source) kept in
      let forward =
        offer_all importable full exclude (λ rel. rel.to_table) false kept
          (relations_of t by_source) in
      let second =
        work-offer_all importable full exclude (λ rel. rel.from_table) true
          (relations_of t by_target) forward in
      elim b
        as (λ c.
          work importable (expand importable full exclude by_source by_target t c s)
          ≤ work importable s) [
            | true ↦ omega (arith, first, second)
            | false ↦ omega (arith, first)
          ]

total_room_blank : (ts : List Bytes) → total_room ts (λ _. none) ≡ 2 * length ts
total_room_blank [] = refl
total_room_blank (t ∷ ts) = omega (arith, total_room_blank ts)

pub work-start :
    (importable : List Bytes) (root : Bytes) (potential : List Bytes)
    → work importable (start importable root potential) ≤ 2 * length importable
unfolding start should_visit
work-start importable root potential =
    let blank : Walk = record { queue = []; explored = λ _. none; potential = potential } in
    ground (arith, total_room_blank importable, total_room-push importable root true blank refl)
