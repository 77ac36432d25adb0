-- ===== src/Prelude/Dict.antt =====
-- A `HashMap<String, V>` as an association list: the first entry of a key counts, and `insert`
-- replaces it in its place. Code that walks a map does so in an order that a parameter gives.
use jibs.Prelude.{
  ◌≡◌, refl, Bool, true, false, List, [], ◌∷◌, Option, none, some, if◌then◌else◌, Bytes, bytes_eq,
  bytes_eq_iff, arith,
}

abbrev pub Dict {ℓ} : Type ℓ → Type ℓ
Dict V = List (Bytes × V)

-- `HashMap::get`
unfoldable pub lookup {ℓ} : {V : Type ℓ} → Bytes → Dict V → Option V
lookup k [] = none
lookup k ((j, v) ∷ m) = if bytes_eq j k then some v else lookup k m

-- `HashMap::insert`
unfoldable pub insert {ℓ} : {V : Type ℓ} → Bytes → V → Dict V → Dict V
insert k v [] = (k, v) ∷ []
insert k v ((j, w) ∷ m) = if bytes_eq j k then (k, v) ∷ m else (j, w) ∷ insert k v m

-- `HashMap::contains_key`
abbrev pub has_key {ℓ} : {V : Type ℓ} → Bytes → Dict V → Bool
has_key k m = elim (lookup k m) [ none ↦ false | some _ ↦ true ]

pub lookup-insert {ℓ} :
    {V : Type ℓ} (k j : Bytes) (v : V) (m : Dict V)
    → lookup j (insert k v m) ≡ (if bytes_eq k j then some v else lookup j m)
unfolding lookup insert
lookup-insert k j v [] = refl
lookup-insert k j v ((i, w) ∷ m) =
    ground (arith, bytes_eq_iff k j, bytes_eq_iff i k, bytes_eq_iff i j, lookup-insert k j v m)
