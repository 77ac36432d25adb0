-- ===== src/Prelude/Io.antt =====
-- Operations on a mutable state that may fail: the state is returned beside an error too.
use jibs.Prelude.{
  ℕ, ◌≡◌, refl, [], ◌++◌, Bytes, if◌then◌else◌, leb, length, take, drop, true, arith, length-append,
  take-length-append, drop-length-append,
}
use jibs.Prelude.Result.{Result, ok, err}

-- The kinds of `std::io::Error` that the code makes or meets; a writer's own are `failed`.
pub data IoError : Type 0 where
  invalid_data unexpected_eof failed : IoError

abbrev pub Io : Type 0 → Type 0 → Type 0
Io S A = S → Result IoError A × S

abbrev pub after : {S A B : Type 0} → Result IoError A → (A → Io S B) → Io S B
after (ok a) f s = f a s
after (err e) f s = (err e, s)

infixl 5 ◌>>=◌ ◌>>◌
abbrev pub ◌>>=◌ : {S A B : Type 0} → Io S A → (A → Io S B) → Io S B
◌>>=◌ m f s = after (m s).0 f (m s).1

abbrev pub ◌>>◌ : {S B : Type 0} → Io S (Unit {0}) → Io S B → Io S B
m >> k = m >>= λ _. k

abbrev pub done : {S : Type 0} → Io S (Unit {0})
done s = (ok tt, s)

-- A writer as the code uses it, with the bytes that it has taken. A call may fail at any time.
pub record Writer (W : Type 0) : Type 0 where
  pub write_all : Bytes → Io W (Unit {0})
  pub flush : Io W (Unit {0})
  pub contents : W → Bytes
  pub appends :
      (bytes : Bytes) (w : W)
      → (write_all bytes w).0 ≡ ok tt
      → contents (write_all bytes w).1 ≡ contents w ++ bytes
  pub flushes : (w : W) → (flush w).0 ≡ ok tt → contents (flush w).1 ≡ contents w

-- `Write` of a `Vec<u8>`, which never fails.
abbrev pub vec_writer : Writer Bytes
vec_writer = record {
  write_all = λ bytes w. (ok tt, w ++ bytes);
  flush = λ w. (ok tt, w);
  contents = λ w. w;
  appends = λ bytes w _. refl;
  flushes = λ w _. refl;
}

-- `read_exact` from what is left of the input.
unfoldable pub read_exact : ℕ → Io Bytes Bytes
read_exact n input =
    if leb n (length input) then (ok (take n input), drop n input) else (err unexpected_eof, [])

-- The bytes in front are read, and the rest is left.
pub read_exact-append :
    (n : ℕ) (bytes rest : Bytes)
    → length bytes ≡ n
    → read_exact n (bytes ++ rest) ≡ (ok bytes, rest)
unfolding read_exact
read_exact-append n bytes rest size =
    let enough : leb n (length (bytes ++ rest)) ≡ true = ground (arith, length-append bytes rest) in
    rw (enough, ← size, take-length-append bytes rest, drop-length-append bytes rest) refl
