-- ===== src/Server/Walk/Correct.antt =====
-- The walk over one aggregate ends, and has touched exactly the tables that can be reached.
use jibs.Prelude.{
  ℕ, zero, suc, ◌*◌, ◌≤◌, Bool, true, false, List, [], ◌∷◌, none, some, ◌≡◌, refl, sym, ap, ◌⊎◌,
  inl, inr, ◌↔◌, arith, Bytes, contains, insert, contains-insert, bytes_eq, bytes_eq_iff,
  bytes_eq_refl, if◌then◌else◌, In, length, Bool-cases, List-cases, Option-cases,
}
use jibs.Prelude.Result.{ok}
use jibs.Protocol.Plan.{Relation}
use jibs.Server.Walk.Invariant.{admits_iff, by_source, by_target, Expanded, Follows, Follows-expand}
use jibs.Server.Walk.Reach.{IsOpen, Reach, here, forward, backward}
use jibs.Server.Walk.Round.{work, work-expand, work-start}
use jibs.Server.Walk.{Visit, Walk, covers, expand, walk, start}

module _ (importable full exclude : List Bytes) (relations : List Relation) (root : Bytes)
    (base : List Bytes) where
  abbrev pub Reached : Bytes → Bool → Type 0
  Reached = Reach importable (IsOpen importable full exclude) relations root

  pub record Inv (s : Walk) : Type 0 where
    queued : (t : Bytes) (b : Bool) → In (t, b) s.queue → Reached t b
    explored_sound : (t : Bytes) (b : Bool) → s.explored t ≡ some b → Reached t b
    touched_sound :
        (t : Bytes)
        → contains s.potential t ≡ true
        → (contains base t ≡ true) ⊎ ((b : Bool) × Reached t b)
    base_kept : (t : Bytes) → contains base t ≡ true → contains s.potential t ≡ true
    rooted : contains importable root ≡ true → covers true (s.explored root) ≡ true
    closed :
        (t : Bytes) (b : Bool)
        → s.explored t ≡ some b
        → In (t, b) s.queue
          ⊎ (Expanded importable full exclude relations root s t b
              × (contains s.potential t ≡ true))

  -- The round of the head of the stack.
  abbrev round : Bytes → Bool → List Visit → Walk → Walk
  round t b rest s =
      expand importable full exclude (by_source importable full exclude relations root)
        (by_target importable full exclude relations root) t b (record s { queue = rest })

  module _ (s : Walk) (t : Bytes) (b : Bool) (rest : List Visit) (top : s.queue ≡ (t, b) ∷ rest)
      (inv : Inv s) where
    here-Reached : Reached t b
    here-Reached = inv.queued t b (rw top (inl refl))

    followed :
        Follows importable full exclude relations root t b
          (record s { queue = rest; potential = insert t s.potential })
          (round t b rest s)
    followed =
        Follows-expand importable full exclude relations root t b (record s { queue = rest })
          here-Reached

    queued-round : (u : Bytes) (c : Bool) → In (u, c) (round t b rest s).queue → Reached u c
    queued-round u c h = elim (followed.new_queue u c h) [
      | inl old ↦ inv.queued u c (rw top (inr old))
      | inr r ↦ r
    ]

    contains-round :
        (u : Bytes)
        → (contains (round t b rest s).potential u ≡ true)
          ↔ ((t ≡ u) ⊎ (contains s.potential u ≡ true))
    contains-round u =
        rw (followed.same_potential, contains-insert) (ground (arith, bytes_eq_iff t u))

    Expanded-keeps :
        (u : Bytes) (c : Bool)
        → Expanded importable full exclude relations root s u c
        → Expanded importable full exclude relations root (round t b rest s) u c
    Expanded-keeps u c h = record {
      along = λ rel m e o. followed.keeps_explored rel.to_table false (h.along rel m e o);
      against = λ rel x m e o. followed.keeps_explored rel.from_table true (h.against rel x m e o);
    }

    closed-round :
        (u : Bytes) (c : Bool)
        → (round t b rest s).explored u ≡ some c
        → In (u, c) (round t b rest s).queue
          ⊎ (Expanded importable full exclude relations root (round t b rest s) u c
              × (contains (round t b rest s).potential u ≡ true))
    closed-round u c h = elim (followed.new_explored u c h) [
      | inr waits ↦ inl waits
      | inl old ↦ elim (inv.closed u c old) [
        | inr (e, p) ↦ inr (Expanded-keeps u c e, (contains-round u).1 (inr p))
        | inl waits ↦ elim (rw top at waits) [
          | inr later ↦ inl (followed.keeps_queue (u, c) later)
          | inl e ↦
              let same_table : u ≡ t = ap (λ (v : Visit). v.0) e in
              let same_cap : c ≡ b = ap (λ (v : Visit). v.1) e in
              inr (
                rw (same_table, same_cap) followed.expanded,
                (contains-round u).1 (inl (sym same_table)),
              )
        ]
      ]
    ]

    Inv-round : Inv (round t b rest s)
    Inv-round = record {
      queued = queued-round;
      explored_sound = λ u c h. elim (followed.new_explored u c h) [
        | inl old ↦ inv.explored_sound u c old
        | inr waits ↦ queued-round u c waits
      ];
      touched_sound = λ u h. elim ((contains-round u).0 h) [
        | inl e ↦ inr (b, rw (← e) here-Reached)
        | inr old ↦ inv.touched_sound u old
      ];
      base_kept = λ u h. (contains-round u).1 (inr (inv.base_kept u h));
      rooted = λ h. followed.keeps_explored root true (inv.rooted h);
      closed = closed-round;
    }

  start_explored_eq :
      (t : Bytes) (b : Bool)
      → (if bytes_eq root t then some true else none) ≡ some b
      → ◌≡◌ {A = Visit} (t, b) (root, true)
  start_explored_eq t b h = ground (arith, bytes_eq_iff root t)

  start_explored :
      contains importable root ≡ true
      → (t : Bytes) (b : Bool) → (if bytes_eq root t then some true else none) ≡ some b
      → Reached t b
  start_explored imported t b h =
      let e = start_explored_eq t b h in
      let cap : b ≡ true = ap (λ (v : Visit). v.1) e in
      rw cap (here imported (ap (λ (v : Visit). v.0) e))

  Inv-start : Inv (start importable root base)
  unfolding start
  Inv-start = elim (Bool-cases (contains importable root)) [
    | inl imported ↦ rw imported (record {
      queued = λ t b h. elim h [
        | inl e ↦
            let cap : b ≡ true = ap (λ (v : Visit). v.1) e in
            rw cap (here imported (ap (λ (v : Visit). v.0) e))
        | inr none_left ↦ absurd none_left
      ];
      explored_sound = λ t b h. start_explored imported t b h;
      touched_sound = λ t h. inl h;
      base_kept = λ t h. h;
      rooted = λ h. rw (bytes_eq_refl root);
      closed = λ t b h. inl (inl (start_explored_eq t b h));
    })
    | inr missing ↦ rw missing (record {
      queued = λ t b h. absurd h;
      explored_sound = λ t b h. cc;
      touched_sound = λ t h. inl h;
      base_kept = λ t h. h;
      rooted = λ h. cc;
      closed = λ t b h. cc;
    })
  ]

  module _ (s : Walk) (inv : Inv s) (empty : s.queue ≡ []) where
    -- With an empty stack an explored table has been expanded.
    explored-Expanded :
        (t : Bytes) (b : Bool)
        → covers b (s.explored t) ≡ true
        → (c : Bool) × (covers b (some c) ≡ true)
          × Expanded importable full exclude relations root s t c
          × (contains s.potential t ≡ true)
    explored-Expanded t b h = elim (Option-cases (s.explored t)) [
      | inl missing ↦ cc (rw missing at h)
      | inr (c, e) ↦ elim (inv.closed t c e) [
        | inl waits ↦ absurd (rw empty at waits)
        | inr (done, p) ↦ (c, rw e at h, done, p)
      ]
    ]

    -- The reached visits are explored, at least as strongly.
    complete : {t : Bytes} {b : Bool} → Reached t b → covers b (s.explored t) ≡ true
    complete (here h same) = rw same (inv.rooted h)
    complete (forward {t} {u} {b} rel r m from to o) =
        let (c, _, x, _) = explored-Expanded t b (complete r) in
        let opened = (admits_iff importable full exclude u).1 o in
        rw to at (x.along rel m from (rw to opened))
    complete (backward {t} {u} rel r m to from o) =
        let (c, h, x, _) = explored-Expanded t true (complete r) in
        let opened = (admits_iff importable full exclude u).1 o in
        rw from at (x.against rel (ground (arith, h)) m to (rw from opened))

    touched_iff :
        (t : Bytes)
        → (contains s.potential t ≡ true) ↔ ((contains base t ≡ true) ⊎ ((b : Bool) × Reached t b))
    touched_iff t = (
      inv.touched_sound t,
      λ h. elim h [
        | inl old ↦ inv.base_kept t old
        | inr (b, r) ↦ (explored-Expanded t b (complete r)).3
      ],
    )

  pub walk-Inv :
      (fuel : ℕ) (s last : Walk)
      → Inv s
      → walk importable full exclude
          (by_source importable full exclude relations root)
          (by_target importable full exclude relations root)
          fuel
          s
        ≡ ok last
      → Inv last × (last.queue ≡ [])
  unfolding walk
  walk-Inv zero s last inv h = elim (List-cases s.queue) [
    | inl empty ↦ ground arith
    | inr (v, rest, e) ↦ ground arith
  ]
  walk-Inv (suc fuel) s last inv h = elim (List-cases s.queue) [
    | inl empty ↦ ground arith
    | inr (v, rest, e) ↦
        walk-Inv fuel (round v.0 v.1 rest s) last (Inv-round s v.0 v.1 rest e inv)
          (rw (e, walk) at h)
  ]

  -- A round takes one visit off the stack and pushes only visits that raise a table.
  round-work :
      (s : Walk) (v : Visit) (rest : List Visit)
      → s.queue ≡ v ∷ rest
      → suc (work importable (round v.0 v.1 rest s)) ≤ work importable s
  round-work s v rest e = omega (
    arith,
    work-expand importable full exclude (by_source importable full exclude relations root)
        (by_target importable full exclude relations root) v.0 v.1 (record s { queue = rest }),
    ap length e,
  )

  walk_ends :
      (fuel : ℕ) (s : Walk)
      → work importable s ≤ fuel
      → (last : Walk) × (walk importable full exclude
            (by_source importable full exclude relations root)
            (by_target importable full exclude relations root)
            fuel
            s
          ≡ ok last)
  unfolding walk
  walk_ends zero s h = (s, ground arith)
  walk_ends (suc fuel) s h = elim (List-cases s.queue) [
    | inl empty ↦ (s, simp (empty, walk))
    | inr (v, rest, e) ↦
        let (last, ends) =
          walk_ends fuel (round v.0 v.1 rest s) (omega (arith, round-work s v rest e)) in
        (last, rw (e, walk) ends)
  ]

  -- The walk ends within the fuel that it is given, with the root's tables added to those before.
  pub walk_correct :
      (last : Walk) × (walk importable full exclude
          (by_source importable full exclude relations root)
          (by_target importable full exclude relations root)
          (2 * length importable)
          (start importable root base)
        ≡ ok last)
      × ((t : Bytes)
          → (contains last.potential t ≡ true)
            ↔ ((contains base t ≡ true) ⊎ ((b : Bool) × Reached t b)))
  walk_correct =
      let first = start importable root base in
      let (last, ends) =
        walk_ends (2 * length importable) first (work-start importable root base) in
      let (inv, empty) = walk-Inv (2 * length importable) first last Inv-start ends in
      (last, ends, touched_iff last inv empty)
