-- ===== src/Parser/Cursor/Runs.antt =====
-- Parsings run: they keep the tokens, move forward within them, and have fuel enough.
use jibs.Prelude.{
  ℕ, ◌<◌, ◌≤◌, Bool, true, false, List, Option, some, ◌≡◌, ◌≢◌, refl, ap, ◌∙◌, inl, inr, arith,
  if◌then◌else◌, length, ltb, Bool-cases,
}
use jibs.Prelude.Result.{Result, ok, err}
use jibs.Parser.Ast.{Span, StringLiteral}
use jibs.Parser.Chars.{Chars}
use jibs.Parser.Cursor.{
  Parser, Failure, syntax, out_of_fuel, Parsing, then_on, ◌>>=◌, ◌>>◌, return, peek, peek2,
  cur_span, prev_end, span_from, bump, is_token, next_is, eat, Env, err_here, expect, expect_ident,
  string_raw, string_literal, remaining, ident_of, raw_of, record_errors, literal_or_errors,
  literal_of,
}
use jibs.Parser.Lexer.{ParseError}
use jibs.Parser.Token.{Token}

-- The position stands within the tokens.
abbrev pub IsWithin : Parser → Type 0
IsWithin p = p.pos ≤ length p.tokens

-- `q` comes behind `p`, over the same tokens.
abbrev pub Follows : Parser → Parser → Type 0
Follows p q = (q.tokens ≡ p.tokens) × (p.pos ≤ q.pos) × IsWithin q

abbrev pub HasFuel : {A : Type 0} → Result Failure A → Type 0
HasFuel r = r ≢ err out_of_fuel

-- What a parsing from `p` returns.
abbrev pub Ran : {A : Type 0} → Parser → Result Failure A × Parser → Type 0
Ran p r = HasFuel r.0 × Follows p r.1

-- A parsing from a state with fewer than `n` tokens left.
unfoldable pub Runs : {A : Type 0} → ℕ → Parsing A → Type 0
Runs n m = (p : Parser) → IsWithin p → remaining p < n → Ran p (m p)

pub Follows-trans : (p q r : Parser) → Follows p q → Follows q r → Follows p r
Follows-trans p q r (same, on, within) (same2, on2, within2) =
    (same2 ∙ same, omega (arith, on, on2), within2)

pub fewer : (p q : Parser) {n : ℕ} → Follows p q → remaining p < n → remaining q < n
fewer p q (same, on, within) h = omega (arith, ap length same, on, h)

pub return-Runs : {A : Type 0} (n : ℕ) (a : A) → Runs n (return a)
unfolding Runs
return-Runs n a p within few = (λ e. cc e, (refl, omega arith, within))

fuel_left : {A B : Type 0} (e : Failure) → HasFuel {A = A} (err e) → HasFuel {A = B} (err e)
fuel_left (syntax e) h = λ x. cc x
fuel_left out_of_fuel h = absurd (h refl)

pub then_on-Ran :
    {A B : Type 0} (r : Result Failure A) (k : A → Parsing B) (q : Parser)
    → HasFuel r
    → IsWithin q
    → ((a : A) → Ran q (k a q))
    → Ran q (then_on r k q)
then_on-Ran (ok a) k q fuel within later = later a
then_on-Ran (err e) k q fuel within later = (fuel_left e fuel, (refl, omega arith, within))

-- A chain runs from a state where its first parsing does, and the rest behind that.
pub bind-Ran :
    {A B : Type 0} (m : Parsing A) (k : A → Parsing B) (p : Parser)
    → Ran p (m p)
    → ((a : A) → Ran (m p).1 (k a (m p).1))
    → Ran p ((m >>= k) p)
bind-Ran m k p (fuel, here) later =
    let (fuel2, there) = then_on-Ran (m p).0 k (m p).1 fuel here.2 later in
    (fuel2, Follows-trans p (m p).1 ((m >>= k) p).1 here there)

pub bind-Runs :
    {A B : Type 0} (n : ℕ) (m : Parsing A) (k : A → Parsing B)
    → Runs n m
    → ((a : A) → Runs n (k a))
    → Runs n (m >>= k)
unfolding Runs
bind-Runs n m k runs later p within few =
    let (_, here) = runs p within few in
    bind-Ran m k p (runs p within few) (λ a. later a (m p).1 here.2 (fewer p (m p).1 here few))

pub if-Runs :
    {A : Type 0} (n : ℕ) (b : Bool) (m k : Parsing A)
    → Runs n m
    → Runs n k
    → Runs n (if b then m else k)
if-Runs n true m k runs _ = runs
if-Runs n false m k _ runs = runs

pub peek-Runs : (n : ℕ) → Runs n peek
unfolding Runs peek
peek-Runs n p within few = (λ e. cc e, (refl, omega arith, within))

pub peek2-Runs : (n : ℕ) → Runs n peek2
unfolding Runs peek2
peek2-Runs n p within few = (λ e. cc e, (refl, omega arith, within))

pub cur_span-Runs : (n : ℕ) → Runs n cur_span
unfolding Runs cur_span
cur_span-Runs n p within few = (λ e. cc e, (refl, omega arith, within))

pub span_from-Runs : (n : ℕ) (start : Span) → Runs n (span_from start)
unfolding Runs prev_end
span_from-Runs n start p within few = (λ e. cc e, (refl, omega arith, within))

pub bump-Runs : (n : ℕ) → Runs n bump
unfolding Runs bump
bump-Runs n p within few = elim (Bool-cases (ltb p.pos (length p.tokens))) [
  | inl more ↦ rw more (λ e. cc e, (refl, omega arith, ground (arith, more)))
  | inr last ↦ rw last (λ e. cc e, (refl, omega arith, within))
]

pub next_is-Runs : (n : ℕ) (t : Token) → Runs n (next_is t)
next_is-Runs n t = bind-Runs n peek _ (peek-Runs n) (λ next. return-Runs n (is_token t next))

pub eat-Runs : (n : ℕ) (t : Token) → Runs n (eat t)
unfolding eat
eat-Runs n t = bind-Runs n (next_is t) _ (next_is-Runs n t) (λ found.
    if-Runs n found (bump >> return true) (return false)
      (bind-Runs n bump _ (bump-Runs n) (λ _. return-Runs n true)) (return-Runs n false))

pub ruleset running = (
  return-Runs, bind-Runs, if-Runs, peek-Runs, peek2-Runs, cur_span-Runs, span_from-Runs, bump-Runs,
  eat-Runs,
)

module _ (env : Env) where
  pub err_here-Runs :
      (A : Type 0) (n : ℕ) (expected : Chars) → Runs n (err_here env {A = A} expected)
  unfolding Runs err_here
  err_here-Runs A n expected p within few = (λ e. cc e, (refl, omega arith, within))

  pub err_here_fails :
      {A : Type 0} (expected : Chars) (p : Parser) {a : A} → (err_here env expected p).0 ≡ ok a → ⊥
  unfolding err_here
  err_here_fails expected p e = cc e

  pub expect-Runs : (n : ℕ) (t : Token) (expected : Chars) → Runs n (expect env t expected)
  unfolding expect
  expect-Runs n t expected = search (running, err_here-Runs)

  ident_of-Runs :
      (n : ℕ) (what : Chars) (t : Option Token) (span : Span) → Runs n (ident_of env what t span)
  ident_of-Runs n what (some (Token.ident s)) span = search running
  ident_of-Runs n what _ span = search (running, err_here-Runs)

  pub expect_ident-Runs : (n : ℕ) (what : Chars) → Runs n (expect_ident env what)
  unfolding expect_ident
  expect_ident-Runs n what = search (running, ident_of-Runs)

  raw_of-Runs :
      (n : ℕ) (what : Chars) (t : Option Token) (span : Span) → Runs n (raw_of env what t span)
  raw_of-Runs n what (some (Token.string s)) span = search running
  raw_of-Runs n what _ span = search (running, err_here-Runs)

  pub string_raw-Runs : (n : ℕ) (what : Chars) → Runs n (string_raw env what)
  unfolding string_raw
  string_raw-Runs n what = search (running, raw_of-Runs)

  record_errors-Runs : (n : ℕ) (errors : List ParseError) → Runs n (record_errors env errors)
  unfolding Runs
  record_errors-Runs n errors p within few = (λ e. cc e, (refl, omega arith, within))

  literal_or_errors-Runs :
      (n : ℕ) (r : Result (List ParseError) StringLiteral) (span : Span)
      → Runs n (literal_or_errors env r span)
  literal_or_errors-Runs n (ok literal) span = search running
  literal_or_errors-Runs n (err errors) span = search (running, record_errors-Runs)

  literal_of-Runs :
      (n : ℕ) (what : Chars) (t : Option Token) (span : Span) → Runs n (literal_of env what t span)
  literal_of-Runs n what (some (Token.string s)) span = search (running, literal_or_errors-Runs)
  literal_of-Runs n what _ span = search (running, err_here-Runs)

  pub string_literal-Runs : (n : ℕ) (what : Chars) → Runs n (string_literal env what)
  unfolding string_literal
  string_literal-Runs n what = search (running, literal_of-Runs)
