-- ===== src/Prelude/Result.antt =====
-- `Result` of the source, with the error first, and its monad.
use jibs.Prelude.{◌≡◌, refl, ◌⊎◌, inl, inr}

pub data Result {ℓ} (E : Type 0) (A : Type ℓ) : Type ℓ where
  ok : A → Result E A
  err : E → Result E A

-- The rest of a computation runs on a success, and an error ends it.
infixl 5 ◌>>=◌
abbrev pub ◌>>=◌ {ℓ κ} :
    {E : Type 0} {S : Type ℓ} {T : Type κ} → Result E S → (S → Result E T) → Result E T
err problem >>= next = err problem
ok value >>= next = next value

-- A chain that succeeds has succeeded in its first step.
pub >>=-eq-ok {ℓ κ} :
    {E : Type 0} {S : Type ℓ} {T : Type κ} (first : Result E S) (next : S → Result E T) {b : T}
    → (first >>= next) ≡ ok b
    → (value : S) × (first ≡ ok value) × (next value ≡ ok b)
>>=-eq-ok (err problem) next e = cc
>>=-eq-ok (ok value) next e = (value, refl, e)

pub Result-cases {ℓ} :
    {E : Type 0} {A : Type ℓ} (m : Result E A) → ((a : A) × (m ≡ ok a)) ⊎ ((e : E) × (m ≡ err e))
Result-cases (ok a) = inl (a, refl)
Result-cases (err e) = inr (e, refl)
