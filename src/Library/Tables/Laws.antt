-- ===== src/Library/Tables/Laws.antt =====
-- Reading the tables of src/library/db/audio_queue.rs after writing them, and membership of paths.
use plain_rs.Common.{
  ℕ, ◌+◌, ◌≡◌, refl, ap, ◌∙◌, true, ◌&&◌, ◌||◌, List, [], ◌∷◌, ◌++◌, if◌then◌else◌, Bytes, str_eq,
  str_eq_iff, filter, arith, Bool-cases, inl, inr, All,
}
use plain_rs.Common.Int.{pos, leb_ℤ}
use plain_rs.Library.Tables.{
  QueueSourceKind, playlist, library, as_str, parse_stored, QueueSource, QueueItem, LibraryDb,
  get_source, save_source, contains, order_by, insert_by, number_from, replace_queue_items,
  all_queue_items, distinct, paths_of,
}

parse_stored-as_str : (k : QueueSourceKind) → parse_stored (as_str k) ≡ k
unfolding parse_stored as_str str_eq
parse_stored-as_str QueueSourceKind.none = refl
parse_stored-as_str playlist = refl
parse_stored-as_str library = refl

-- The source that `save_source` writes is the one that `get_source` reads, whatever was there.
pub get_source-save_source :
    (src : QueueSource) (db : LibraryDb) → get_source (save_source src db) ≡ src
unfolding get_source save_source
get_source-save_source src db = ground (arith, parse_stored-as_str src.source)

-- `contains` decides equality with a member.
pub contains-cons :
    (p x : Bytes) (ps : List Bytes) → contains (x ∷ ps) p ≡ (str_eq p x || contains ps p)
unfolding contains
contains-cons p x ps = ground arith

pub contains-append :
    (p : Bytes) (xs ys : List Bytes) → contains (xs ++ ys) p ≡ (contains xs p || contains ys p)
unfolding contains
contains-append p [] ys = refl
contains-append p (x ∷ xs) ys = ground (arith, contains-append p xs ys)

pub contains-filter :
    (p : Bytes) (qs ps : List Bytes)
    → contains (filter (contains qs) ps) p ≡ (contains ps p && contains qs p)
unfolding contains
contains-filter p qs [] = refl
contains-filter p qs (x ∷ ps) = ground (arith, str_eq_iff p x, contains-filter p qs ps)

-- A row whose sort order is below all others comes first.
abbrev Above : ℕ → List QueueItem → Type 0
Above i = All (λ q. leb_ℤ (pos i) q.sort_order ≡ true)

insert_by-first :
    (x : QueueItem) (ys : List QueueItem)
    → All (λ q. leb_ℤ x.sort_order q.sort_order ≡ true) ys
    → insert_by (λ (q : QueueItem). q.sort_order) x ys ≡ x ∷ ys
unfolding insert_by
insert_by-first x [] h = refl
insert_by-first x (y ∷ ys) (h, hs) = rw h

number_from-Above :
    (i j : ℕ) (rows : List QueueItem) → leb_ℤ (pos i) (pos j) ≡ true → Above i (number_from j rows)
unfolding number_from
number_from-Above i j [] h = tt
number_from-Above i j (q ∷ qs) h = (h, number_from-Above i (j + 1) qs (ground arith))

pub order_by-number_from :
    (i : ℕ) (rows : List QueueItem)
    → order_by (λ (q : QueueItem). q.sort_order) (number_from i rows) ≡ number_from i rows
unfolding order_by number_from
order_by-number_from i [] = refl
order_by-number_from i (q ∷ qs) =
    ap (insert_by (λ (q : QueueItem). q.sort_order) (record q { sort_order = pos i }))
      (order_by-number_from (i + 1) qs)
    ∙ insert_by-first (record q { sort_order = pos i }) (number_from (i + 1) qs)
        (number_from-Above i (i + 1) qs (ground arith))

-- The queue is read back with dense sort orders, in the order in which it was written, unless two
-- rows share a path: then nothing is written.
pub all_queue_items-replace_queue_items :
    (rows : List QueueItem) (db : LibraryDb)
    → all_queue_items (replace_queue_items rows db)
      ≡ (if distinct (paths_of rows) then number_from 0 rows else all_queue_items db)
unfolding all_queue_items replace_queue_items
all_queue_items-replace_queue_items rows db = elim (Bool-cases (distinct (paths_of rows))) [
  | inl e ↦ rw e (order_by-number_from 0 rows)
  | inr e ↦ rw e
]

pub paths_of-number_from :
    (i : ℕ) (rows : List QueueItem) → paths_of (number_from i rows) ≡ paths_of rows
unfolding number_from
paths_of-number_from i [] = refl
paths_of-number_from i (q ∷ qs) = ap (◌∷◌ q.path) (paths_of-number_from (i + 1) qs)
