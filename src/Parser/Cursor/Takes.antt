-- ===== src/Parser/Cursor/Takes.antt =====
-- Rounds of loops take a token, so the loops have fuel enough.
use jibs.Prelude.{
  ℕ, zero, suc, ◌+◌, ◌<◌, Bool, true, false, not, ◌&&◌, List, [], ◌∷◌, Option, none, some, ◌≡◌,
  refl, ap, inl, inr, arith, if◌then◌else◌, length, get_elem?, Bool-cases, Option-cases,
}
use jibs.Prelude.Result.{Result, ok, err}
use jibs.Parser.Ast.{Span, Spanned}
use jibs.Parser.Chars.{Chars}
use jibs.Parser.Cursor.{
  Parser, Failure, Parsing, then_on, ◌>>=◌, return, first_of, span_at, peek, cur_span, bump,
  is_token, next_is, eat, Env, err_here, expect_ident, remaining, repeat_on, repeat, round_if,
  comma_list, another, elements, ident_of,
}
use jibs.Parser.Cursor.Runs.{
  HasFuel, IsWithin, Ran, Runs, Follows-trans, fewer, then_on-Ran, bind-Ran, return-Runs, running,
  eat-Runs, next_is-Runs,
}
use jibs.Parser.Token.{Token}

-- A result that `good` holds of was paid for by a token.
unfoldable pub Takes : {A : Type 0} → ℕ → (A → Bool) → Parsing A → Type 0
Takes {A} n good m =
    (p : Parser)
    → IsWithin p
    → remaining p < n
    → (a : A) → (m p).0 ≡ ok a
    → good a ≡ true
    → p.pos < (m p).1.pos

abbrev pub is_some : {A : Type 0} → Option A → Bool
is_some none = false
is_some (some _) = true

abbrev pub always : {A : Type 0} → A → Bool
always _ = true

-- Behind a round of a loop, from a state where the loop itself runs if the round yields an element.
behind_round :
    {A : Type 0} (n fuel : ℕ) (round : Parsing (Option A)) (r : Result Failure (Option A))
    (q : Parser)
    → HasFuel r
    → IsWithin q
    → remaining q < n
    → ((a : A) → r ≡ ok (some a) → Ran q (repeat_on fuel round q))
    → Ran {A = List A} q (
        then_on r
          (λ o. elim o [
            | none ↦ return []
            | some a ↦ repeat_on fuel round >>= λ rest. return (a ∷ rest)
          ])
          q)
unfolding Runs
behind_round n fuel round (ok none) q has within few again = return-Runs n [] q within few
behind_round n fuel round (ok (some a)) q has within few again =
    let (_, here) = again a refl in
    bind-Ran (repeat_on fuel round) (λ rest. return (a ∷ rest)) q (again a refl)
      (λ rest.
        return-Runs n (a ∷ rest) (repeat_on fuel round q).1 here.2
          (fewer q (repeat_on fuel round q).1 here few))
behind_round n fuel round (err e) q has within few again =
    then_on-Ran (err e) (λ o. return []) q has within (λ o. return-Runs n [] q within few)

-- The loop from a state that has fewer tokens left than the fuel.
repeat_on-Ran :
    {A : Type 0} (n : ℕ) (round : Parsing (Option A))
    → Runs n round
    → Takes n is_some round
    → (fuel : ℕ) (p : Parser) → IsWithin p
    → remaining p < n
    → remaining p < fuel
    → Ran p (repeat_on fuel round p)
unfolding repeat_on Takes Runs
repeat_on-Ran n round runs takes zero p within few enough = absurd (omega (arith, enough))
repeat_on-Ran n round runs takes (suc fuel) p within few enough =
    let (has, here) = runs p within few in
    let less = fewer p (round p).1 here few in
    let (has2, there) = behind_round n fuel round (round p).0 (round p).1 has here.2 less (λ a e.
      repeat_on-Ran n round runs takes fuel (round p).1 here.2 less
        (omega (arith, ap length here.0, takes p within few (some a) e refl, here.2, enough))) in
    (has2, Follows-trans p (round p).1 (repeat_on (suc fuel) round p).1 here there)

pub repeat-Runs :
    {A : Type 0} (n : ℕ) (round : Parsing (Option A))
    → Runs n round
    → Takes n is_some round
    → Runs n (repeat round)
unfolding Runs repeat
repeat-Runs n round runs takes p within few =
    repeat_on-Ran n round runs takes (remaining p + 1) p within few (omega arith)

-- A chain takes a token where its first parsing does, or where the later ones do.
behind :
    {A B : Type 0} (r : Result Failure A) (k : A → Parsing B) (q : Parser) (b : B)
    → (then_on r k q).0 ≡ ok b
    → (a : A) × (r ≡ ok a) × ((k a q).0 ≡ ok b)
behind (ok a) k q b e = (a, refl, e)
behind (err x) k q b e = cc e

pub via-Takes :
    {A B : Type 0} (n : ℕ) (paid : A → Bool) (good : B → Bool) (m : Parsing A) (k : A → Parsing B)
    → Runs n m
    → Takes n paid m
    → ((a : A) → Runs n (k a))
    → ((a : A) (q : Parser) (b : B) → (k a q).0 ≡ ok b → good b ≡ true → paid a ≡ true)
    → Takes n good (m >>= k)
unfolding Takes Runs
via-Takes n paid good m k runs takes later tells p within few b e holds =
    let (has, here) = runs p within few in
    let (a, first, more) = behind (m p).0 k (m p).1 b e in
    let taken = takes p within few a first (tells a (m p).1 b more holds) in
    let (_, there) =
      then_on-Ran (m p).0 k (m p).1 has here.2
        (λ c. later c (m p).1 here.2 (fewer p (m p).1 here few)) in
    omega (arith, taken, there.1)

pub first-Takes :
    {A B : Type 0} (n : ℕ) (good : B → Bool) (m : Parsing A) (k : A → Parsing B)
    → Runs n m
    → Takes n always m
    → ((a : A) → Runs n (k a))
    → Takes n good (m >>= k)
first-Takes n good m k runs takes later =
    via-Takes n always good m k runs takes later (λ a q b e holds. refl)

pub later-Takes :
    {A B : Type 0} (n : ℕ) (good : B → Bool) (m : Parsing A) (k : A → Parsing B)
    → Runs n m
    → ((a : A) → Takes n good (k a))
    → Takes n good (m >>= k)
unfolding Takes Runs
later-Takes n good m k runs takes p within few b e holds =
    let (_, here) = runs p within few in
    let (a, first, more) = behind (m p).0 k (m p).1 b e in
    let less = fewer p (m p).1 here few in
    rw first (omega (arith, here.1, takes a (m p).1 here.2 less b more holds))

pub get_elem?_lt :
    {A : Type 0} (xs : List A) (i : ℕ) {x : A} → get_elem? xs i ≡ some x → i < length xs
get_elem?_lt [] i h = cc h
get_elem?_lt (x ∷ xs) zero h = omega arith
get_elem?_lt (x ∷ xs) (suc i) h = omega (arith, get_elem?_lt xs i h)

-- Behind a token that was seen, a token is taken.
pub bump_pos :
    (p : Parser) (t : Token) → first_of (get_elem? p.tokens p.pos) ≡ some t → p.pos < (bump p).1.pos
unfolding bump
bump_pos p t h = elim (Option-cases (get_elem? p.tokens p.pos)) [
  | inl none_left ↦ cc (rw none_left at h)
  | inr (x, e) ↦ ground (arith, get_elem?_lt p.tokens p.pos e)
]

-- What is done by the token in front takes one.
pub peek-Takes :
    {B : Type 0} (n : ℕ) (good : B → Bool) (k : Option Token → Parsing B)
    → ((t : Option Token) (p : Parser)
        → first_of (get_elem? p.tokens p.pos) ≡ t
        → IsWithin p
        → remaining p < n
        → (b : B) → (k t p).0 ≡ ok b
        → good b ≡ true
        → p.pos < (k t p).1.pos)
    → Takes n good (peek >>= k)
unfolding peek Takes
peek-Takes n good k takes p within few b e holds =
    takes (first_of (get_elem? p.tokens p.pos)) p refl within few b e holds

token_there : (t : Token) (o : Option Token) → is_token t o ≡ true → (u : Token) × (o ≡ some u)
token_there t none h = cc h
token_there t (some u) h = (u, refl)

pub eat-Takes : (n : ℕ) (t : Token) → Takes n (λ b. b) (eat t)
unfolding Takes eat peek bump
eat-Takes n t p within few b e holds =
    elim (Bool-cases (is_token t (first_of (get_elem? p.tokens p.pos)))) [
      | inl found ↦
          let (u, there) = token_there t (first_of (get_elem? p.tokens p.pos)) found in
          rw found (bump_pos p u there)
      | inr other ↦ let same = rw other at e in cc (same, holds)
    ]

pub another-Runs : (n : ℕ) (close : Token) → Runs n (another close)
unfolding another
another-Runs n close = search (running, next_is-Runs)

another_tells :
    (close : Token) (comma : Bool) (q : Parser) (b : Bool)
    → ((next_is close >>= λ closes. return (comma && not closes)) q).0 ≡ ok b
    → b ≡ true
    → comma ≡ true
unfolding peek
another_tells close true q b e holds = refl
another_tells close false q b e holds = cc (e, holds)

pub another-Takes : (n : ℕ) (close : Token) → Takes n (λ b. b) (another close)
unfolding another
another-Takes n close =
    via-Takes n (λ b. b) (λ b. b) (eat Token.comma)
      (λ comma. next_is close >>= λ closes. return (comma && not closes)) (eat-Runs n Token.comma)
      (eat-Takes n Token.comma) (λ comma. search (running, next_is-Runs)) (another_tells close)

round_tells :
    {A : Type 0} (one : Parsing A) (go : Bool) (q : Parser) (b : Option A)
    → ((if go then (one >>= λ a. return (some a)) else return none) q).0 ≡ ok b
    → is_some b ≡ true
    → go ≡ true
round_tells one true q b e holds = refl
round_tells one false q none e holds = cc holds
round_tells one false q (some b) e holds = cc e

pub round-Runs :
    {A : Type 0} (n : ℕ) (test : Parsing Bool) (one : Parsing A)
    → Runs n test
    → Runs n one
    → Runs n (round_if test one)
round-Runs n test one runs runs_one = search running

-- A round behind a test that takes a token.
pub tested-Takes :
    {A : Type 0} (n : ℕ) (test : Parsing Bool) (one : Parsing A)
    → Runs n test
    → Takes n (λ b. b) test
    → Runs n one
    → Takes n is_some (round_if test one)
tested-Takes n test one runs takes runs_one =
    via-Takes n (λ b. b) is_some test _ runs takes (λ go. search running) (round_tells one)

element_if :
    {A : Type 0} (n : ℕ) (one : Parsing A)
    → Runs n one
    → Takes n always one
    → (go : Bool) → Takes n is_some (if go then (one >>= λ a. return (some a)) else return none)
unfolding Takes
element_if n one runs takes true p within few b e holds =
    first-Takes n is_some one _ runs takes (λ a. return-Runs n (some a)) p within few b e holds
element_if n one runs takes false p within few none e holds = cc holds
element_if n one runs takes false p within few (some b) e holds = cc e

-- A round whose element takes a token.
pub element-Takes :
    {A : Type 0} (n : ℕ) (test : Parsing Bool) (one : Parsing A)
    → Runs n test
    → Runs n one
    → Takes n always one
    → Takes n is_some (round_if test one)
element-Takes n test one runs runs_one takes =
    later-Takes n is_some test _ runs (element_if n one runs_one takes)

pub comma_list-Runs : {A : Type 0} (n : ℕ) (one : Parsing A) → Runs n one → Runs n (comma_list one)
unfolding comma_list
comma_list-Runs n one runs = search (running, repeat-Runs, tested-Takes, eat-Takes, round-Runs)

pub elements-Runs :
    {A : Type 0} (n : ℕ) (close : Token) (one : Parsing A)
    → Runs n one
    → Runs n (elements close one)
unfolding elements
elements-Runs n close one runs =
    search (running, repeat-Runs, tested-Takes, another-Takes, another-Runs, round-Runs)

module _ (env : Env) where
  ident_of-Takes :
      (n : ℕ) (what : Chars) (good : Spanned Chars → Bool) (t : Option Token) (span : Span)
      (p : Parser)
      → first_of (get_elem? p.tokens p.pos) ≡ t
      → (b : Spanned Chars) → (ident_of env what t span p).0 ≡ ok b
      → p.pos < (ident_of env what t span p).1.pos
  unfolding bump err_here
  ident_of-Takes n what good (some (Token.ident s)) span p there b e =
      bump_pos p (Token.ident s) there
  ident_of-Takes n what good _ span p there b e = cc e

  pub expect_ident-Takes : (n : ℕ) (what : Chars) → Takes n always (expect_ident env what)
  unfolding Takes expect_ident peek cur_span
  expect_ident-Takes n what p within few b e holds =
      ident_of-Takes n what always (first_of (get_elem? p.tokens p.pos)) (span_at p) p refl b e
