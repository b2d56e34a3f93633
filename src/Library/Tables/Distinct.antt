-- ===== src/Library/Tables/Distinct.antt =====
-- Lists of paths without repetition, and what the queue's operations do to them.
use plain_rs.Common.{
  ◌≡◌, refl, Bool, true, false, not, List, [], ◌∷◌, ◌++◌, Bytes, str_eq_iff, filter, arith, All,
}
use plain_rs.Library.Tables.{contains, distinct, QueueItem, paths_of}
use plain_rs.Library.Tables.Laws.{contains-cons, contains-append}

-- No path of the first list stands in the second.
abbrev pub Apart : List Bytes → List Bytes → Type 0
Apart xs ys = All (λ p. contains ys p ≡ false) xs

pub distinct-append :
    (xs ys : List Bytes)
    → distinct xs ≡ true
    → distinct ys ≡ true
    → Apart xs ys
    → distinct (xs ++ ys) ≡ true
unfolding distinct
distinct-append [] ys hx hy a = hy
distinct-append (x ∷ xs) ys hx hy (h, a) =
    ground (arith, contains-append x xs ys, distinct-append xs ys (ground arith) hy a)

distinct-append_left : (xs ys : List Bytes) → distinct (xs ++ ys) ≡ true → distinct xs ≡ true
unfolding distinct
distinct-append_left [] ys h = refl
distinct-append_left (x ∷ xs) ys h =
    ground (arith, contains-append x xs ys, distinct-append_left xs ys)

distinct-append_right : (xs ys : List Bytes) → distinct (xs ++ ys) ≡ true → distinct ys ≡ true
unfolding distinct
distinct-append_right [] ys h = h
distinct-append_right (x ∷ xs) ys h = ground (arith, distinct-append_right xs ys)

-- A list that repeats a path repeats it inside any longer list.
pub distinct-append_false :
    (xs ys zs : List Bytes) → distinct ys ≡ false → distinct (xs ++ (ys ++ zs)) ≡ false
distinct-append_false xs ys zs h =
    ground (arith, distinct-append_right xs (ys ++ zs), distinct-append_left ys zs)

contains-filter-false :
    (f : Bytes → Bool) (p : Bytes) (xs : List Bytes)
    → contains xs p ≡ false
    → contains (filter f xs) p ≡ false
unfolding contains
contains-filter-false f p [] h = refl
contains-filter-false f p (x ∷ xs) h = ground (arith, contains-filter-false f p xs)

pub distinct-filter :
    (f : Bytes → Bool) (xs : List Bytes) → distinct xs ≡ true → distinct (filter f xs) ≡ true
unfolding distinct
distinct-filter f [] h = refl
distinct-filter f (x ∷ xs) h = ground (arith, distinct-filter f xs, contains-filter-false f x xs)

pub filter-Apart : (ys xs : List Bytes) → Apart (filter (λ p. not (contains ys p)) xs) ys
filter-Apart ys [] = tt
filter-Apart ys (x ∷ xs) = ground (arith, filter-Apart ys xs)

Apart-nil : (ys : List Bytes) → Apart ys []
unfolding contains
Apart-nil [] = tt
Apart-nil (y ∷ ys) = (refl, Apart-nil ys)

Apart-cons :
    (x : Bytes) (xs ys : List Bytes) → contains ys x ≡ false → Apart ys xs → Apart ys (x ∷ xs)
Apart-cons x xs [] h a = tt
Apart-cons x xs (y ∷ ys) h (k, a) = (
  ground (arith, contains-cons y x xs, contains-cons x y ys, str_eq_iff x y, str_eq_iff y x),
  Apart-cons x xs ys (ground (arith, contains-cons x y ys)) a,
)

pub Apart-swap : (xs ys : List Bytes) → Apart xs ys → Apart ys xs
Apart-swap [] ys a = Apart-nil ys
Apart-swap (x ∷ xs) ys (h, a) = Apart-cons x xs ys h (Apart-swap xs ys a)

pub paths_of-filter :
    (f : Bytes → Bool) (qs : List QueueItem)
    → paths_of (filter (λ q. f q.path) qs) ≡ filter f (paths_of qs)
paths_of-filter f [] = refl
paths_of-filter f (q ∷ qs) = ground (arith, paths_of-filter f qs)
