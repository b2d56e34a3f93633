-- ===== src/Library/AudioQueue/Advance/Bound.antt =====
-- The length of the history after `record_history` of src/library/audio_queue.rs.
use plain_rs.Common.{
  ℕ, suc, ◌≤◌, ◌≡◌, refl, ap, ◌∙◌, Bool, true, false, not, ◌&&◌, ◌||◌, List, [], ◌∷◌, map, Bytes,
  str_eq, str_eq_iff, filter, take, length, ltb, arith, Bool-cases, inl, inr, length-map,
  length-take, ltb_false→le, str_eq_refl, length-append,
}
use plain_rs.Common.Int.{ℤ}
use plain_rs.Library.Tables.{PlayHistory, LibraryDb, contains, distinct}
use plain_rs.Library.Tables.Laws.{contains-cons, contains-filter}
use plain_rs.Library.Tables.Distinct.{distinct-filter}
use mathlib.Core.List.{reverse, reverse-cons}
use plain_rs.Library.Tables.History.{
  insert_newest, newest_first, all_history, upsert_row, upsert_history, trim_history,
  history_by_path,
}
use plain_rs.Library.AudioQueue.Advance.History.{history_row, record_history}

abbrev pub played : List PlayHistory → List Bytes
played = map (λ (h : PlayHistory). h.path)

contains-upsert_row :
    (p : Bytes) (row : PlayHistory) (hs : List PlayHistory)
    → contains (played (upsert_row row hs)) p ≡ (str_eq p row.path || contains (played hs) p)
unfolding contains upsert_row
contains-upsert_row p row [] = ground arith
contains-upsert_row p row (h ∷ hs) = ground (
  arith,
  str_eq_iff h.path row.path,
  str_eq_iff p row.path,
  str_eq_iff p h.path,
  contains-upsert_row p row hs,
)

distinct-upsert_row :
    (row : PlayHistory) (hs : List PlayHistory)
    → distinct (played hs) ≡ true
    → distinct (played (upsert_row row hs)) ≡ true
unfolding distinct upsert_row
distinct-upsert_row row [] d = unfold contains in refl
distinct-upsert_row row (h ∷ hs) d = ground (
  arith,
  str_eq_iff h.path row.path,
  contains-upsert_row h.path row hs,
  distinct-upsert_row row hs,
)

-- A member taken out.
others_of : Bytes → List Bytes → List Bytes
others_of p = filter (λ x. not (str_eq x p))

length-others_of : (p : Bytes) (ys : List Bytes) → length (others_of p ys) ≤ length ys
unfolding others_of
length-others_of p [] = omega arith
length-others_of p (y ∷ ys) = ground (arith, length-others_of p ys)

length-others_of_member :
    (p : Bytes) (ys : List Bytes) → contains ys p ≡ true → suc (length (others_of p ys)) ≤ length ys
unfolding others_of contains
length-others_of_member p [] h = cc
length-others_of_member p (y ∷ ys) h =
    ground
      (arith, str_eq_iff y p, str_eq_iff p y, length-others_of p ys, length-others_of_member p ys)

contains-others_of :
    (x p : Bytes) (ys : List Bytes)
    → contains (others_of p ys) x ≡ (contains ys x && not (str_eq x p))
unfolding others_of contains
contains-others_of x p [] = refl
contains-others_of x p (y ∷ ys) =
    ground (arith, str_eq_iff x y, str_eq_iff x p, str_eq_iff y p, contains-others_of x p ys)

or_right : (a b : Bool) → b ≡ true → (a || b) ≡ true
or_right a b h = ground arith

or_left : (a b : Bool) → a ≡ true → (a || b) ≡ true
or_left a b h = ground arith

and_right : (a b c : Bool) → c ≡ (a && b) → c ≡ true → b ≡ true
and_right a b c e h = ground arith

head_out :
    (x : Bytes) (xs : List Bytes)
    → distinct (x ∷ xs) ≡ true
    → (contains xs x ≡ false) × (distinct xs ≡ true)
unfolding distinct
head_out x xs d = ground arith

member_apart :
    (p x : Bytes) (xs ys : List Bytes)
    → contains xs x ≡ false
    → contains xs p ≡ true
    → contains ys p ≡ true
    → (contains ys p && not (str_eq p x)) ≡ true
member_apart p x xs ys out there inside = ground (arith, str_eq_iff p x, ap (contains xs))

-- Distinct members of a list are no more than it is long.
length-distinct :
    (xs ys : List Bytes)
    → distinct xs ≡ true
    → ((p : Bytes) → contains xs p ≡ true → contains ys p ≡ true)
    → length xs ≤ length ys
unfolding distinct
length-distinct [] ys d h = omega arith
length-distinct (x ∷ xs) ys d h =
    let (fresh, d') = head_out x xs d in
    let inside : (p : Bytes) → contains xs p ≡ true → contains (others_of x ys) p ≡ true =
      λ p there.
        contains-others_of p x ys
        ∙ member_apart p x xs ys fresh there
            (h p (contains-cons p x xs ∙ or_right (str_eq p x) (contains xs p) there)) in
    omega (
      arith,
      length-others_of_member x ys
          (h x (contains-cons x x xs ∙ or_left (str_eq x x) (contains xs x) (str_eq_refl x))),
      length-distinct xs (others_of x ys) d' inside,
    )

length-insert_newest :
    (x : PlayHistory) (xs : List PlayHistory) → length (insert_newest x xs) ≡ suc (length xs)
unfolding insert_newest
length-insert_newest x [] = refl
length-insert_newest x (y ∷ ys) = ground (arith, length-insert_newest x ys)

length-newest_first : (xs : List PlayHistory) → length (newest_first xs) ≡ length xs
unfolding newest_first
length-newest_first [] = refl
length-newest_first (x ∷ xs) =
    length-insert_newest x (newest_first xs) ∙ ap suc (length-newest_first xs)

length-reverse : (xs : List PlayHistory) → length (reverse xs) ≡ length xs
length-reverse [] = refl
length-reverse (x ∷ xs) =
    ap length (reverse-cons x xs)
    ∙ length-append (reverse xs) (x ∷ [])
    ∙ omega (arith, length-reverse xs)

length-all_history : (db : LibraryDb) → length (all_history db) ≡ length db.history
unfolding all_history
length-all_history db = length-newest_first (reverse db.history) ∙ length-reverse db.history

played-filter :
    (f : Bytes → Bool) (hs : List PlayHistory)
    → played (filter (λ h. f h.path) hs) ≡ filter f (played hs)
played-filter f [] = refl
played-filter f (h ∷ hs) = ground (arith, played-filter f hs)

-- The rows that a trim keeps, for the paths that it keeps.
trimmed :
    (keep : ℕ) (db : LibraryDb)
    → distinct (played db.history) ≡ true
    → (distinct (played (trim_history keep db).history) ≡ true)
      × (length (trim_history keep db).history ≤ keep)
unfolding trim_history
trimmed keep db d =
    let kept = played (take keep (all_history db)) in
    let same = played-filter (contains kept) db.history in
    let d' = distinct-filter (contains kept) (played db.history) d in
    let fits =
      length-distinct (filter (contains kept) (played db.history)) kept d'
        (λ p h. and_right _ _ _ (contains-filter p kept (played db.history)) h) in
    (
      ap distinct same ∙ d',
      omega (
        arith,
        fits,
        ap length same,
        length-map (λ (h : PlayHistory). h.path) (filter (λ h. contains kept h.path) db.history),
        length-map (λ (h : PlayHistory). h.path) (take keep (all_history db)),
        length-take keep (all_history db),
      ),
    )

-- Over a history that lists each path once, `record_history` leaves one that does, of at most five
-- quarters of the 200 rows that a trim keeps, however long it was.
pub record_history_bound :
    (now path title artist : Bytes) (secs : ℤ) (db : LibraryDb)
    → distinct (played db.history) ≡ true
    → (distinct (played (record_history now path title artist secs db).history) ≡ true)
      × (length (record_history now path title artist secs db).history ≤ 250)
unfolding record_history upsert_history
record_history_bound now path title artist secs db d =
    let row = history_row (history_by_path db path) now path title artist secs in
    let db' = upsert_history row db in
    let d' : distinct (played db'.history) ≡ true = distinct-upsert_row row db.history d in
    elim (Bool-cases (ltb 250 (length (all_history db')))) [
      | inl many ↦ let (unique, few) = trimmed 200 db' d' in rw many (unique, omega (arith, few))
      | inr few ↦ rw few (
        d',
        omega (arith, ltb_false→le 250 (length (all_history db')) few, length-all_history db'),
      )
    ]
