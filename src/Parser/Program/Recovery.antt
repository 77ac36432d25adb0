-- ===== src/Parser/Program/Recovery.antt =====
-- The tokens at which recovery stops, beside those at which the parser of a statement can begin.
use jibs.Prelude.{
  ℕ, ◌<◌, ◌≤◌, true, false, Option, some, ◌≡◌, ◌≢◌, refl, inl, inr, length, get_elem?, Bool-cases,
}
use jibs.Prelude.Result.{ok, Result-cases}
use jibs.Parser.Ast.{Statement, StatementKind}
use jibs.Parser.Cursor.{Parser, Parsing, Env, first_of, is_token, peek, ◌>>=◌}
use jibs.Parser.Cursor.Runs.{err_here_fails}
use jibs.Parser.Program.{starts_statement, synchronize}
use jibs.Parser.Program.Ends.{Starts, synchronize_lem}
use jibs.Parser.Statement.{kind_at, statement_kind, statement}
use jibs.Parser.Token.{Token, token_eq}

kind_at-Starts :
    (env : Env) (o : Option Token) (p : Parser) (kind : StatementKind)
    → (kind_at env o p).0 ≡ ok kind
    → Starts o
unfolding kind_at starts_statement
kind_at-Starts env (some Token.import) p kind e = (Token.import, refl, refl)
kind_at-Starts env (some Token.var) p kind e = (Token.var, refl, refl)
kind_at-Starts env (some Token.faker) p kind e = (Token.faker, refl, refl)
kind_at-Starts env (some Token.relation) p kind e = (Token.relation, refl, refl)
kind_at-Starts env (some Token.ignore_relation) p kind e = (Token.ignore_relation, refl, refl)
kind_at-Starts env (some Token.anonymize) p kind e = (Token.anonymize, refl, refl)
kind_at-Starts env (some Token.exclude_data) p kind e = (Token.exclude_data, refl, refl)
kind_at-Starts env (some Token.ignore_table) p kind e = (Token.ignore_table, refl, refl)
kind_at-Starts env (some Token.full) p kind e = (Token.full, refl, refl)
kind_at-Starts env (some Token.aggregate) p kind e = (Token.aggregate, refl, refl)
kind_at-Starts env (some Token.get) p kind e = (Token.get, refl, refl)
kind_at-Starts env (some Token.preserve) p kind e = (Token.preserve, refl, refl)
kind_at-Starts env (some Token.set) p kind e = (Token.set, refl, refl)
kind_at-Starts env (some Token.after) p kind e = (Token.after, refl, refl)
kind_at-Starts env _ p kind e = absurd (err_here_fails env _ p e)

hash-Starts : (o : Option Token) → is_token Token.hash o ≡ true → Starts o
unfolding token_eq starts_statement
hash-Starts (some Token.hash) h = (Token.hash, refl, refl)
hash-Starts _ h = cc h

then-ok :
    {A B : Type 0} (m : Parsing A) (f : A → Parsing B) (p : Parser) (b : B)
    → ((m >>= f) p).0 ≡ ok b
    → (a : A) × ((m p).0 ≡ ok a)
then-ok m f p b e = elim (Result-cases (m p).0) [
  | inl (a, went) ↦ (a, went)
  | inr (why, failed) ↦ cc (rw failed at e)
]

-- A statement begins with a token at which recovery stops.
statement-Starts :
    (env : Env) (p : Parser) (stmt : Statement)
    → (statement env p).0 ≡ ok stmt
    → Starts (first_of (get_elem? p.tokens p.pos))
unfolding statement statement_kind peek
statement-Starts env p stmt e =
    elim (Bool-cases (is_token Token.hash (first_of (get_elem? p.tokens p.pos)))) [
      | inl hash ↦ hash-Starts _ hash
      | inr other ↦
          let (kind, went) = then-ok (statement_kind env) _ p stmt (rw other at e) in
          kind_at-Starts env (first_of (get_elem? p.tokens p.pos)) p kind went
    ]

-- From a position within the tokens, recovery passes over no statement: at no position behind the
-- token in front, and in front of where it stops, does the parser of a statement succeed.
pub synchronize-statement :
    (env : Env) (p : Parser)
    → p.pos ≤ length p.tokens
    → (i : ℕ) (stmt : Statement) → p.pos < i
    → i < (synchronize p).pos
    → (statement env (record p { pos = i })).0 ≢ ok stmt
synchronize-statement env p within i stmt from to e =
    let (_, _, _, passed) = synchronize_lem p within in
    let (t, there, starts) = statement-Starts env (record p { pos = i }) stmt e in
    let not_there : starts_statement t ≡ false = passed i from to t there in cc (starts, not_there)
