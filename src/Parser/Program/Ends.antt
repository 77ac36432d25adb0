-- ===== src/Parser/Program/Ends.antt =====
-- The parser reads its tokens to the end, whatever they are.
use jibs.Prelude.{
  ℕ, zero, suc, ◌+◌, ◌<◌, ◌≤◌, true, false, List, [], ◌∷◌, ◌++◌, Option, none, some, ◌≡◌, ◌≢◌, refl,
  ap, ◌∙◌, ◌⊎◌, inl, inr, arith, length, get_elem?, leb, Bool-cases, Option-cases, ◌==◌,
}
use jibs.Prelude.Result.{Result, ok, err}
use jibs.Parser.Ast.{Span, Spanned, Statement}
use jibs.Parser.Cursor.{
  Parser, Failure, syntax, out_of_fuel, Env, new_parser, first_of, at_end, span_at, bump, remaining,
}
use jibs.Parser.Cursor.Runs.{IsWithin, Follows, Runs, Follows-trans, bump-Runs}
use jibs.Parser.Cursor.Takes.{Takes, get_elem?_lt, bump_pos}
use jibs.Parser.Program.{
  starts_statement, stops, skip_to_statement, synchronize, settle, program_round, program_on,
  program,
}
use jibs.Parser.Statement.{statement}
use jibs.Parser.Statement.Runs.{statement-Runs, statement-Takes}
use jibs.Parser.Token.{Token}

-- The parser of a statement, from a position within the tokens, has fuel enough in all its loops: it
-- keeps the tokens, and does not move back, nor beyond their end.
pub statement_ends :
    (env : Env) (p : Parser)
    → p.pos ≤ length p.tokens
    → ((statement env p).0 ≢ err out_of_fuel)
      × ((statement env p).1.tokens ≡ p.tokens)
      × (p.pos ≤ (statement env p).1.pos)
      × ((statement env p).1.pos ≤ length (statement env p).1.tokens)
unfolding Runs
statement_ends env p within =
    let (has, kept) = statement-Runs env (remaining p + 1) p within (omega arith) in
    (has, kept.0, kept.1, kept.2)

-- A statement that was parsed from a position within the tokens took a token at least.
pub statement_takes :
    (env : Env) (p : Parser) (stmt : Statement)
    → p.pos ≤ length p.tokens
    → (statement env p).0 ≡ ok stmt
    → p.pos < (statement env p).1.pos
unfolding Takes
statement_takes env p stmt within e =
    statement-Takes env (remaining p + 1) p within (omega arith) stmt e refl

abbrev next_token : Parser → Option Token
next_token p = first_of (get_elem? p.tokens p.pos)

further :
    (o : Option (Spanned Token)) → stops (first_of o) ≡ false → (x : Spanned Token) × (o ≡ some x)
further none h = cc h
further (some x) h = (x, refl)

skip-Follows : (fuel : ℕ) (p : Parser) → IsWithin p → Follows p (skip_to_statement fuel p)
unfolding skip_to_statement
skip-Follows zero p within = (refl, omega arith, within)
skip-Follows (suc fuel) p within = elim (Bool-cases (stops (next_token p))) [
  | inl here ↦ rw here (refl, omega arith, within)
  | inr on ↦
      let (x, e) = further (get_elem? p.tokens p.pos) on in
      let (same, forward, inside) =
        skip-Follows fuel (record p { pos = p.pos + 1 })
          (omega (arith, get_elem?_lt p.tokens p.pos e)) in
      rw on (same, omega (arith, forward), inside)
]

past_end : {A : Type 0} (xs : List A) (i : ℕ) → length xs ≤ i → get_elem? xs i ≡ none
past_end [] i h = refl
past_end (x ∷ xs) zero h = absurd (omega (arith, h))
past_end (x ∷ xs) (suc i) h = past_end xs i (omega (arith, h))

none_past : {A : Type 0} (xs : List A) (i : ℕ) → get_elem? xs i ≡ none → length xs ≤ i
none_past [] i h = omega arith
none_past (x ∷ xs) zero h = cc h
none_past (x ∷ xs) (suc i) h = omega (arith, none_past xs i h)

skip_stops :
    (fuel : ℕ) (p : Parser)
    → remaining p ≤ fuel
    → stops (next_token (skip_to_statement fuel p)) ≡ true
unfolding skip_to_statement
skip_stops zero p enough = rw (past_end p.tokens p.pos (omega (arith, enough))) refl
skip_stops (suc fuel) p enough = elim (Bool-cases (stops (next_token p))) [
  | inl here ↦ rw here here
  | inr on ↦ rw on (skip_stops fuel (record p { pos = p.pos + 1 }) (omega (arith, enough)))
]

skip_passes :
    (fuel : ℕ) (p : Parser) (i : ℕ)
    → p.pos ≤ i
    → i < (skip_to_statement fuel p).pos
    → stops (first_of (get_elem? p.tokens i)) ≡ false
unfolding skip_to_statement
skip_passes zero p i from to = absurd (omega (arith, from, to))
skip_passes (suc fuel) p i from to = elim (Bool-cases (stops (next_token p))) [
  | inl here ↦ absurd (omega (arith, from, rw here at to))
  | inr on ↦ elim (Bool-cases (p.pos == i)) [
    | inl same ↦ let here : p.pos ≡ i = ground arith in rw (← here) on
    | inr other ↦
        skip_passes fuel (record p { pos = p.pos + 1 }) i (ground (arith, from)) (rw on at to)
  ]
]

bump_one : (p : Parser) → (bump p).1.pos ≤ p.pos + 1
unfolding bump
bump_one p = ground arith

synchronize-stops :
    (p : Parser)
    → p.pos ≤ length p.tokens
    → Follows p (synchronize p)
      × (stops (first_of (get_elem? (synchronize p).tokens (synchronize p).pos)) ≡ true)
      × ((p.pos < (synchronize p).pos) ⊎ (p.pos ≡ length p.tokens))
      × ((i : ℕ)
          → p.pos < i
          → i < (synchronize p).pos
          → stops (first_of (get_elem? p.tokens i)) ≡ false)
unfolding synchronize Runs
synchronize-stops p within =
    let (_, here) = bump-Runs (remaining p + 1) p within (omega arith) in
    let there = skip-Follows (remaining (bump p).1) (bump p).1 here.2 in
    (
      Follows-trans p (bump p).1 (synchronize p) here there,
      skip_stops (remaining (bump p).1) (bump p).1 (omega arith),
      elim (Option-cases (get_elem? p.tokens p.pos)) [
        | inl none_left ↦ inr (omega (arith, none_past p.tokens p.pos none_left, within))
        | inr (x, e) ↦ inl (omega (arith, bump_pos p x.0 (ap first_of e), there.1))
      ],
      λ i from to. elim (Option-cases (get_elem? p.tokens p.pos)) [
        | inl none_left ↦ absurd (
            omega (
              arith,
              none_past p.tokens p.pos none_left,
              from,
              to,
              there.1,
              there.2,
              ap length there.0,
              ap length here.0,
            ))
        | inr (x, e) ↦
            rw (← here.0)
              (skip_passes (remaining (bump p).1) (bump p).1 i (omega (arith, bump_one p, from)) to)
      ],
    )

-- The token starts a statement.
abbrev pub Starts : Option Token → Type 0
Starts o = (t : Token) × (o ≡ some t) × (starts_statement t ≡ true)

stops-Starts :
    (xs : List (Spanned Token)) (i : ℕ)
    → i ≤ length xs
    → stops (first_of (get_elem? xs i)) ≡ true
    → (i ≡ length xs) ⊎ Starts (first_of (get_elem? xs i))
stops-Starts xs i within h = elim (Option-cases (get_elem? xs i)) [
  | inl none_left ↦ inl (omega (arith, none_past xs i none_left, within))
  | inr (x, e) ↦ inr (rw e (x.0, refl, rw e at h))
]

-- From a position within the tokens, recovery keeps the tokens, skips the token in front, if one is
-- there, and goes on to the first token behind it that starts a statement, or to the end if there is
-- none: no token that it passes over, but the one in front, starts a statement.
pub synchronize_lem :
    (p : Parser)
    → p.pos ≤ length p.tokens
    → Follows p (synchronize p)
      × (((synchronize p).pos ≡ length p.tokens)
          ⊎ Starts (first_of (get_elem? p.tokens (synchronize p).pos)))
      × ((p.pos < (synchronize p).pos) ⊎ (p.pos ≡ length p.tokens))
      × ((i : ℕ)
          → p.pos < i
          → i < (synchronize p).pos
          → (t : Token) → first_of (get_elem? p.tokens i) ≡ some t
          → starts_statement t ≡ false)
synchronize_lem p within =
    let (follows, stop, moved, passed) = synchronize-stops p within in
    let (same, _, inside) = follows in
    (
      follows,
      stops-Starts p.tokens (synchronize p).pos (omega (arith, inside, ap length same))
          (rw same at stop),
      moved,
      λ i from to t e. rw e at (passed i from to),
    )

-- Behind a statement or its error, the parser stands behind where it was.
recovers :
    (p q : Parser)
    → Follows p q
    → p.pos < length p.tokens
    → Follows p (synchronize q) × (p.pos < (synchronize q).pos)
recovers p q (same, on, within) more =
    let (there, _, moved, _) = synchronize_lem q within in
    (
      Follows-trans p q (synchronize q) (same, on, within) there,
      elim moved [
        | inl forward ↦ omega (arith, forward, on)
        | inr last ↦ omega (arith, last, ap length same, more, there.1)
      ],
    )

settle_moves :
    (p : Parser) (start : ℕ) (r : Result Failure Statement) (q : Parser)
    → Follows p q
    → p.pos < length p.tokens
    → ((stmt : Statement) → r ≡ ok stmt → p.pos < q.pos)
    → Follows p (settle start r q).1 × (p.pos < (settle start r q).1.pos)
unfolding settle
settle_moves p start (ok stmt) q follows more taken = (follows, taken stmt refl)
settle_moves p start (err (syntax e)) q follows more taken =
    recovers p (record q { errors = q.errors ++ e ∷ [] }) follows more
settle_moves p start (err out_of_fuel) q follows more taken = recovers p q follows more

lt_le : (p : Parser) → p.pos < length p.tokens → IsWithin p
lt_le p h = omega (arith, h)

program_round_moves :
    (env : Env) (p : Parser)
    → p.pos < length p.tokens
    → Follows p (program_round env p).1 × (p.pos < (program_round env p).1.pos)
unfolding program_round
program_round_moves env p more =
    let within = lt_le p more in
    let (_, same, on, inside) = statement_ends env p within in
    settle_moves p (span_at p).start (statement env p).0 (statement env p).1 (same, on, inside) more
      (λ stmt e. statement_takes env p stmt within e)

program_on_ends :
    (env : Env) (fuel : ℕ) (p : Parser)
    → IsWithin p
    → remaining p < fuel
    → ((program_on env fuel p).1.tokens ≡ p.tokens)
      × ((program_on env fuel p).1.pos ≡ length p.tokens)
unfolding program_on at_end
program_on_ends env zero p within enough = absurd (omega (arith, enough))
program_on_ends env (suc fuel) p within enough = elim (Bool-cases (leb (length p.tokens) p.pos)) [
  | inl last ↦ rw last (refl, ground (arith, last, within))
  | inr more ↦
      let (here, forward) = program_round_moves env p (ground (arith, more)) in
      let (same, ended) =
        program_on_ends env fuel (program_round env p).1 here.2
          (omega (arith, forward, ap length here.0, here.2, enough)) in
      rw more (same ∙ here.0, ended ∙ ap length here.0)
]

-- Whatever the tokens are, a program is parsed to their end: statements that are wrong are skipped,
-- and the parser stops behind the last token, with its tokens as they were.
pub program_ends :
    (env : Env) (tokens : List (Spanned Token)) (eoi : Span)
    → ((program env (new_parser tokens eoi)).1.tokens ≡ tokens)
      × ((program env (new_parser tokens eoi)).1.pos ≡ length tokens)
unfolding program
program_ends env tokens eoi =
    program_on_ends env (remaining (new_parser tokens eoi) + 1) (new_parser tokens eoi)
      (omega arith) (omega arith)
