-- ===== src/Common/Split.antt =====
-- `str::split` and `str::split_once` on one character, and maps keyed by strings.
use Prim.Native.Nat.{ℕ}
use mathlib.Core.Path.{◌≡◌, refl}
use mathlib.Core.Bool.{false}
use mathlib.Core.Option.{Option, none, some}
use mathlib.Core.List.{List, [], ◌∷◌, ◌++◌}
use native.Mathlib.Omega.{arith}
use plain_rs.Common.Tests.{◌==◌, if◌then◌else◌}
use plain_rs.Common.Lists.{All}
use plain_rs.Common.Text.{Bytes, str_eq, str_eq_iff}

abbrev cons_head : ℕ → List Bytes → List Bytes
cons_head b [] = (b ∷ []) ∷ []
cons_head b (p ∷ ps) = (b ∷ p) ∷ ps

unfoldable pub split : ℕ → Bytes → List Bytes
split c [] = [] ∷ []
split c (b ∷ bs) = if b == c then [] ∷ split c bs else cons_head b (split c bs)

unfoldable pub split_once : ℕ → Bytes → Option (Bytes × Bytes)
split_once c [] = none
split_once c (b ∷ bs) =
    if b == c
    then some ([], bs)
    else elim (split_once c bs) [ none ↦ none | some (f, r) ↦ some (b ∷ f, r) ]

-- The character `c` does not stand in the text.
abbrev pub Lacks : ℕ → Bytes → Type 0
Lacks c = All (λ b. (b == c) ≡ false)

pub split-Lacks : (c : ℕ) (x : Bytes) → Lacks c x → split c x ≡ x ∷ []
unfolding split
split-Lacks c [] h = refl
split-Lacks c (b ∷ x) (h, hs) = ground (arith, split-Lacks c x hs)

pub split-append : (c : ℕ) (x y : Bytes) → Lacks c x → split c (x ++ (c ∷ y)) ≡ x ∷ split c y
unfolding split
split-append c [] y h = ground arith
split-append c (b ∷ x) y (h, hs) = ground (arith, split-append c x y hs)

pub split_once-append :
    (c : ℕ) (x y : Bytes) → Lacks c x → split_once c (x ++ (c ∷ y)) ≡ some (x, y)
unfolding split_once
split_once-append c [] y h = ground arith
split_once-append c (b ∷ x) y (h, hs) = ground (arith, split_once-append c x y hs)

-- A `HashMap` keyed by strings, as an association list.
module _ {ℓ} {V : Type ℓ} where
  unfoldable pub lookup : Bytes → List (Bytes × V) → Option V
  lookup k [] = none
  lookup k ((j, v) ∷ m) = if str_eq j k then some v else lookup k m

  unfoldable pub insert : Bytes → V → List (Bytes × V) → List (Bytes × V)
  insert k v [] = (k, v) ∷ []
  insert k v ((j, w) ∷ m) = if str_eq j k then (k, v) ∷ m else (j, w) ∷ insert k v m

  pub lookup-insert :
      (k j : Bytes) (v : V) (m : List (Bytes × V))
      → lookup j (insert k v m) ≡ (if str_eq k j then some v else lookup j m)
  unfolding lookup insert
  lookup-insert k j v [] = refl
  lookup-insert k j v ((i, w) ∷ m) =
      ground (arith, str_eq_iff k j, str_eq_iff i k, str_eq_iff i j, lookup-insert k j v m)
