-- ===== src/Client/Marks.antt =====
-- Files that are imported once: the marks of both resolvers, and what they leave of a finite file
-- system.
use jibs.Prelude.{
  ℕ, suc, ◌<◌, ◌≤◌, true, false, List, [], ◌∷◌, ◌≡◌, ◌≢◌, refl, arith, Bytes, contains, insert,
  contains-insert, bytes_eq, bytes_eq_iff, if◌then◌else◌, length, inl, inr, Bool-cases,
}
use jibs.Prelude.Result.{Result, ok, err, ◌>>=◌}
use jibs.Client.Error.{Failure, Stop, failed, out_of_fuel}
use jibs.Client.Resolver.{lift}

-- How many of the files are not imported yet.
pub left : List Bytes → List Bytes → ℕ
left [] imported = 0
left (file ∷ files) imported =
    let rest = left files imported in if contains imported file then rest else suc rest

pub left-le-length : (files imported : List Bytes) → left files imported ≤ length files
unfolding left
left-le-length [] imported = omega arith
left-le-length (f ∷ files) imported = ground (arith, left-le-length files imported)

left-insert-le :
    (files imported : List Bytes) (file : Bytes)
    → left files (insert file imported) ≤ left files imported
unfolding left
left-insert-le [] imported file = omega arith
left-insert-le (f ∷ files) imported file =
    ground (arith, left-insert-le files imported file, contains-insert file imported f)

pub left-insert-lt :
    (files imported : List Bytes) (file : Bytes)
    → contains files file ≡ true
    → contains imported file ≡ false
    → left files (insert file imported) < left files imported
unfolding left contains
left-insert-lt [] imported file there new = cc
left-insert-lt (f ∷ files) imported file there new = elim (Bool-cases (bytes_eq f file)) [
  | inl same ↦
      let here : f ≡ file = (bytes_eq_iff f file).0 same in
      ground (
        arith,
        left-insert-le files imported file,
        contains-insert file imported f,
        bytes_eq_iff file f,
      )
  | inr other ↦
      let later : contains files file ≡ true = ground arith in
      ground (
        arith,
        left-insert-lt files imported file later new,
        contains-insert file imported f,
        bytes_eq_iff file f,
        bytes_eq_iff f file,
      )
]

module _ (files : List Bytes) {S : Type 0} (view : S → List Bytes) where
  -- The fuel has not run out, and no file is unmarked.
  unfoldable pub Ends : List Bytes → Result Stop S → Type 0
  Ends before x =
      (x ≢ err out_of_fuel) × ((t : S) → x ≡ ok t → left files (view t) ≤ left files before)

  pub Ends-bind :
      (before : List Bytes) (x : Result Stop S) (f : S → Result Stop S)
      → Ends before x
      → ((u : S) → left files (view u) ≤ left files before → Ends (view u) (f u))
      → Ends before (x >>= f)
  unfolding Ends
  Ends-bind before (ok u) f h k =
      ((k u (h.1 u refl)).0, λ t e. omega (arith, h.1 u refl, (k u (h.1 u refl)).1 t e))
  Ends-bind before (err e) f h k = (λ d. h.0 (cc d), λ t d. cc d)

  -- A computation without fuel that leaves the marks as they are.
  pub Ends-lift :
      (before : List Bytes) (x : Result Failure S)
      → ((t : S) → x ≡ ok t → (view t) ≡ before)
      → Ends before (lift x)
  unfolding Ends
  Ends-lift before (ok u) keeps = (λ d. cc, λ t e. ground (arith, keeps u refl))
  Ends-lift before (err e) keeps = (λ d. cc, λ t d. cc)

  pub Ends-ok : (s : S) → Ends (view s) (ok s)
  unfolding Ends
  Ends-ok s = (λ d. cc, λ t e. ground arith)

  pub Ends-failed : (before : List Bytes) (e : Failure) → Ends before (err (failed e))
  unfolding Ends
  Ends-failed before e = (λ d. cc, λ t d. cc)

  pub Ends-insert :
      (file : Bytes) (before : List Bytes) (x : Result Stop S)
      → Ends (insert file before) x
      → Ends before x
  unfolding Ends
  Ends-insert file before x h =
      (h.0, λ t e. omega (arith, h.1 t e, left-insert-le files before file))
