-- ===== src/Common/Slices.antt =====
-- Slices of lists: of slices, of concatenations and of images.
use Prim.Native.Nat.{ℕ, zero, suc, ◌+◌, ◌-◌, ◌≤◌, ◌<◌, min}
use mathlib.Core.Path.{◌≡◌, refl, sym, ap, ◌∙◌}
use mathlib.Core.List.{List, [], ◌∷◌, ◌++◌, map, append-nil}
use mathlib.Core.Bool.{Bool}
use mathlib.Core.Option.{none, some}
use native.Mathlib.Omega.{arith}
use plain_rs.Common.Lists.{length, take, drop, get_elem?, filter, length-drop}

module _ {ℓ} {A : Type ℓ} where
  pub drop-nil : (n : ℕ) → drop {A = A} n [] ≡ []
  drop-nil zero = refl
  drop-nil (suc n) = refl

  pub take-nil : (n : ℕ) → take {A = A} n [] ≡ []
  take-nil zero = refl
  take-nil (suc n) = refl

  pub drop-append_all :
      (n : ℕ) (xs ys : List A) → drop n (xs ++ ys) ≡ drop n xs ++ drop (n - length xs) ys
  drop-append_all zero [] ys = ground arith
  drop-append_all (suc n) [] ys = ground arith
  drop-append_all zero (x ∷ xs) ys = ground arith
  drop-append_all (suc n) (x ∷ xs) ys = ground (arith, drop-append_all n xs ys)

  pub take-append_all :
      (n : ℕ) (xs ys : List A) → take n (xs ++ ys) ≡ take n xs ++ take (n - length xs) ys
  take-append_all zero [] ys = ground arith
  take-append_all (suc n) [] ys = ground arith
  take-append_all zero (x ∷ xs) ys = ground arith
  take-append_all (suc n) (x ∷ xs) ys = ground (arith, take-append_all n xs ys)

  pub drop-drop : (n m : ℕ) (xs : List A) → drop n (drop m xs) ≡ drop (m + n) xs
  drop-drop n zero xs = ground arith
  drop-drop zero (suc m) [] = ground arith
  drop-drop (suc n) (suc m) [] = ground (arith, drop-nil (suc m + suc n))
  drop-drop n (suc m) (x ∷ xs) =
      let e : suc (m + n) ≡ suc m + n = omega arith in
      drop-drop n m xs ∙ ap (λ k. drop k (x ∷ xs)) e

  pub take-take : (n m : ℕ) (xs : List A) → take n (take m xs) ≡ take (min n m) xs
  take-take zero m xs = ground arith
  take-take (suc n) zero xs = ground arith
  take-take (suc n) (suc m) [] = ground (arith, take-nil (min (suc n) (suc m)))
  take-take (suc n) (suc m) (x ∷ xs) =
      let e : suc (min n m) ≡ min (suc n) (suc m) = omega arith in
      ap (◌∷◌ x) (take-take n m xs) ∙ ap (λ k. take k (x ∷ xs)) e

  pub drop-take : (n m : ℕ) (xs : List A) → drop n (take m xs) ≡ take (m - n) (drop n xs)
  drop-take zero m xs = ground arith
  drop-take (suc n) zero xs = ground arith
  drop-take (suc n) (suc m) [] = ground (arith, take-nil (suc m - suc n))
  drop-take (suc n) (suc m) (x ∷ xs) = ground (arith, drop-take n m xs)

  pub take_all : (n : ℕ) (xs : List A) → length xs ≤ n → take n xs ≡ xs
  take_all zero [] h = refl
  take_all (suc n) [] h = refl
  take_all zero (x ∷ xs) h = absurd (omega arith)
  take_all (suc n) (x ∷ xs) h = ground (arith, take_all n xs)

  pub drop_all : (n : ℕ) (xs : List A) → length xs ≤ n → drop n xs ≡ []
  drop_all zero [] h = refl
  drop_all (suc n) [] h = refl
  drop_all zero (x ∷ xs) h = absurd (omega arith)
  drop_all (suc n) (x ∷ xs) h = ground (arith, drop_all n xs)

  pub filter-append :
      (p : A → Bool) (xs ys : List A) → filter p (xs ++ ys) ≡ filter p xs ++ filter p ys
  filter-append p [] ys = refl
  filter-append p (x ∷ xs) ys = ground (arith, filter-append p xs ys)

  pub get_elem?-take : (i n : ℕ) (xs : List A) → i < n → get_elem? (take n xs) i ≡ get_elem? xs i
  get_elem?-take i zero xs h = absurd (omega arith)
  get_elem?-take i (suc n) [] h = refl
  get_elem?-take zero (suc n) (x ∷ xs) h = refl
  get_elem?-take (suc i) (suc n) (x ∷ xs) h = get_elem?-take i n xs (omega arith)

  pub get_elem?-drop : (i n : ℕ) (xs : List A) → get_elem? (drop n xs) i ≡ get_elem? xs (n + i)
  get_elem?-drop i zero xs = ground arith
  get_elem?-drop i (suc n) [] = ground arith
  get_elem?-drop i (suc n) (x ∷ xs) = ground (arith, get_elem?-drop i n xs)

  pub get_elem?-append_left :
      (i : ℕ) (xs ys : List A) → i < length xs → get_elem? (xs ++ ys) i ≡ get_elem? xs i
  get_elem?-append_left i [] ys h = absurd (omega arith)
  get_elem?-append_left zero (x ∷ xs) ys h = refl
  get_elem?-append_left (suc i) (x ∷ xs) ys h = get_elem?-append_left i xs ys (omega arith)

  pub get_elem?-append_right :
      (i : ℕ) (xs ys : List A)
      → length xs ≤ i
      → get_elem? (xs ++ ys) i ≡ get_elem? ys (i - length xs)
  get_elem?-append_right i [] ys h = ground arith
  get_elem?-append_right zero (x ∷ xs) ys h = absurd (omega arith)
  get_elem?-append_right (suc i) (x ∷ xs) ys h = ground (arith, get_elem?-append_right i xs ys)

module _ {ℓ κ} {A : Type ℓ} {B : Type κ} (f : A → B) where
  pub map-take : (n : ℕ) (xs : List A) → map f (take n xs) ≡ take n (map f xs)
  map-take zero xs = refl
  map-take (suc n) [] = refl
  map-take (suc n) (x ∷ xs) = ap (◌∷◌ (f x)) (map-take n xs)

  pub map-drop : (n : ℕ) (xs : List A) → map f (drop n xs) ≡ drop n (map f xs)
  map-drop zero xs = refl
  map-drop (suc n) [] = refl
  map-drop (suc n) (x ∷ xs) = map-drop n xs

-- A slice, and where it lies in a concatenation.
module _ {ℓ} {A : Type ℓ} where
  take-add : (n k : ℕ) (xs : List A) → take (n + k) xs ≡ take n xs ++ take k (drop n xs)
  take-add zero k xs = ground arith
  take-add (suc n) k [] =
      let e : suc (n + k) ≡ suc n + k = omega arith in
      ap (λ j. take {A = A} j []) (sym e) ∙ sym (take-nil k)
  take-add (suc n) k (x ∷ xs) =
      let e : suc n + k ≡ suc (n + k) = omega arith in
      ap (λ j. take j (x ∷ xs)) e ∙ ap (◌∷◌ x) (take-add n k xs)

  pub slice_split :
      (r x e : ℕ) (xs : List A)
      → r ≤ x
      → x ≤ e
      → take (e - r) (drop r xs) ≡ take (x - r) (drop r xs) ++ take (e - x) (drop x xs)
  slice_split r x e xs hr he =
      let sum : e - r ≡ x - r + (e - x) = omega arith in
      let at : r + (x - r) ≡ x = omega arith in
      ap (λ n. take n (drop r xs)) sum
      ∙ take-add (x - r) (e - x) (drop r xs)
      ∙ ap (λ ys. take (x - r) (drop r xs) ++ take (e - x) ys)
          (drop-drop (x - r) r xs ∙ ap (λ n. drop n xs) at)

  pub slice_left :
      (r x : ℕ) (xs ys : List A)
      → x ≤ length xs
      → r ≤ x
      → take (x - r) (drop r (xs ++ ys)) ≡ take (x - r) (drop r xs)
  slice_left r x xs ys h hr =
      let none_left : x - r - length (drop r xs) ≡ 0 = omega (arith, length-drop r xs) in
      rw (drop-append_all r xs ys, take-append_all (x - r) (drop r xs), none_left) (append-nil _)

  pub slice_right :
      (r n : ℕ) (xs ys : List A)
      → length xs ≤ r
      → take n (drop r (xs ++ ys)) ≡ take n (drop (r - length xs) ys)
  slice_right r n xs ys h = rw (drop-append_all r xs ys, drop_all r xs h)

module _ {ℓ} {A : Type ℓ} where
  pub get_elem?-length : (i : ℕ) (xs : List A) → length xs ≤ i → get_elem? xs i ≡ none
  get_elem?-length i [] h = refl
  get_elem?-length zero (x ∷ xs) h = absurd (omega arith)
  get_elem?-length (suc i) (x ∷ xs) h = get_elem?-length i xs (omega arith)

  pub get_elem?-lt : (i : ℕ) (xs : List A) → i < length xs → (x : A) × (get_elem? xs i ≡ some x)
  get_elem?-lt i [] h = absurd (omega arith)
  get_elem?-lt zero (x ∷ xs) h = (x, refl)
  get_elem?-lt (suc i) (x ∷ xs) h = get_elem?-lt i xs (omega arith)
