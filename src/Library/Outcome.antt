-- ===== src/Library/Outcome.antt =====
-- src/library/mod.rs: the error type, and the state-and-error monad of the operations that read the
-- library database and the media index. What a step wrote before an error stays written.
use plain_rs.Common.{Bytes}

pub data LibraryError : Type 0 where
  sqlite other : Bytes → LibraryError

pub data LibraryResult {ℓ} (A : Type ℓ) : Type ℓ where
  ok : A → LibraryResult A
  err : LibraryError → LibraryResult A

module _ (S : Type 0) where
  abbrev pub M : Type 0 → Type 0
  M A = S → LibraryResult A × S

module _ {S : Type 0} where
  abbrev pub pure : {A : Type 0} → A → M S A
  pure a s = (ok a, s)

  -- A call of the media index, which leaves the database alone.
  abbrev pub lift : {A : Type 0} → LibraryResult A → M S A
  lift r s = (r, s)

  abbrev pub get : M S S
  get s = (ok s, s)

  abbrev pub put : S → M S (Unit {0})
  put s' s = (ok tt, s')

  abbrev pub and_then : {A B : Type 0} → LibraryResult A × S → (A → M S B) → LibraryResult B × S
  and_then (ok a, s) f = f a s
  and_then (err e, s) f = (err e, s)

  infixl 5 ◌>>=◌ ◌>>◌
  abbrev pub ◌>>=◌ : {A B : Type 0} → M S A → (A → M S B) → M S B
  ◌>>=◌ m f s = and_then (m s) f

  abbrev pub ◌>>◌ : {B : Type 0} → M S (Unit {0}) → M S B → M S B
  m >> k = m >>= λ _. k
