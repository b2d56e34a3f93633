-- ===== src/Library/AudioQueue/Edits/Reorder.antt =====
-- The queue after `reorder_queued` of src/library/audio_queue.rs.
use plain_rs.Common.{
  ◌≡◌, refl, ap, ◌∙◌, Bool, true, false, not, ◌&&◌, ◌||◌, List, [], ◌∷◌, ◌++◌, none, some, Bytes,
  str_eq, str_eq_iff, find?, filter, is_empty, arith, Bool-cases, Option-cases, inl, inr,
}
use plain_rs.Library.Tables.{
  QueueItem, LibraryDb, contains, all_queue_items, replace_queue_items, paths_of, distinct,
}
use plain_rs.Library.Tables.Laws.{
  contains-append, all_queue_items-replace_queue_items, paths_of-number_from,
}
use plain_rs.Library.Tables.Distinct.{
  Apart, Apart-swap, filter-Apart, distinct-append, distinct-filter, paths_of-filter,
}
use plain_rs.Library.AudioQueue.Edits.{pick, reordered, reorder_queued}

find?-none :
    (p : Bytes) (all : List QueueItem)
    → find? (λ (q : QueueItem). str_eq q.path p) all ≡ none
    → contains (paths_of all) p ≡ false
unfolding contains
find?-none p [] h = refl
find?-none p (q ∷ qs) h = ground (arith, str_eq_iff p q.path, str_eq_iff q.path p, find?-none p qs)

find?-some :
    (p : Bytes) (all : List QueueItem) (q : QueueItem)
    → find? (λ (q : QueueItem). str_eq q.path p) all ≡ some q
    → (q.path ≡ p) × (contains (paths_of all) p ≡ true)
unfolding contains
find?-some p [] q h = cc
find?-some p (x ∷ xs) q h =
    ground (arith, str_eq_iff p x.path, str_eq_iff x.path p, find?-some p xs q)

paths_of-append : (xs ys : List QueueItem) → paths_of (xs ++ ys) ≡ paths_of xs ++ paths_of ys
paths_of-append [] ys = refl
paths_of-append (x ∷ xs) ys = ap (◌∷◌ x.path) (paths_of-append xs ys)

contains-pick :
    (p : Bytes) (ps : List Bytes) (all : List QueueItem)
    → contains (paths_of (pick ps all)) p ≡ (contains ps p && contains (paths_of all) p)
unfolding pick contains
contains-pick p [] all = refl
contains-pick p (x ∷ ps) all =
    elim (Option-cases (find? (λ (q : QueueItem). str_eq q.path x) all)) [
      | inl e ↦
          rw (e, pick) (ground (arith, find?-none x all e, contains-pick p ps all, str_eq_iff p x))
      | inr (q, e) ↦
          rw (e, pick)
            (ground (
              arith,
              find?-some x all q e,
              contains-pick p ps all,
              str_eq_iff p x,
              str_eq_iff p q.path,
            ))
    ]

contains-filter-not :
    (p : Bytes) (ps xs : List Bytes)
    → contains (filter (λ x. not (contains ps x)) xs) p ≡ (not (contains ps p) && contains xs p)
unfolding contains
contains-filter-not p ps [] = ground arith
contains-filter-not p ps (x ∷ xs) = ground (arith, str_eq_iff p x, contains-filter-not p ps xs)

contains-reordered :
    (p : Bytes) (ps : List Bytes) (all : List QueueItem)
    → contains (paths_of (reordered ps all)) p ≡ contains (paths_of all) p
unfolding reordered
contains-reordered p ps all =
    rw
      (
        paths_of-append (pick ps all) (filter (λ (q : QueueItem). not (contains ps q.path)) all),
        contains-append p (paths_of (pick ps all))
            (paths_of (filter (λ (q : QueueItem). not (contains ps q.path)) all)),
        paths_of-filter (λ x. not (contains ps x)) all,
        contains-filter-not p ps (paths_of all),
        contains-pick p ps all,
      )
      (split (contains ps p) (contains (paths_of all) p))
  where
    split : (a b : Bool) → ((a && b) || (not a && b)) ≡ b
    split a b = ground arith

-- What `replace_queue_items` leaves is free of repetition if the queue was.
replace_queue_items-distinct :
    (rows : List QueueItem) (db : LibraryDb)
    → distinct (paths_of (all_queue_items db)) ≡ true
    → distinct (paths_of (all_queue_items (replace_queue_items rows db))) ≡ true
replace_queue_items-distinct rows db d = elim (Bool-cases (distinct (paths_of rows))) [
  | inl e ↦ rw (all_queue_items-replace_queue_items rows db, e, paths_of-number_from 0 rows) e
  | inr e ↦ rw (all_queue_items-replace_queue_items rows db, e) d
]

replaced_members :
    (p : Bytes) (ps : List Bytes) (db : LibraryDb)
    → contains
        (paths_of (all_queue_items (replace_queue_items (reordered ps (all_queue_items db)) db)))
        p
      ≡ contains (paths_of (all_queue_items db)) p
replaced_members p ps db =
    let rows = reordered ps (all_queue_items db) in
    elim (Bool-cases (distinct (paths_of rows))) [
      | inl e ↦
          rw (all_queue_items-replace_queue_items rows db, e, paths_of-number_from 0 rows)
            (contains-reordered p ps (all_queue_items db))
      | inr e ↦ rw (all_queue_items-replace_queue_items rows db, e) refl
    ]

-- Whatever paths it is given, unknown or repeated ones included, `reorder_queued` neither adds a path
-- to the queue nor takes one away, and over a queue without repetition it leaves one without.
pub reorder_queued_lem :
    (ps : List Bytes) (db : LibraryDb)
    → distinct (paths_of (all_queue_items db)) ≡ true
    → ((p : Bytes)
        → contains (paths_of (all_queue_items (reorder_queued ps db))) p
          ≡ contains (paths_of (all_queue_items db)) p)
      × (distinct (paths_of (all_queue_items (reorder_queued ps db))) ≡ true)
unfolding reorder_queued
reorder_queued_lem ps db d = elim (Bool-cases (is_empty ps || is_empty (all_queue_items db))) [
  | inl e ↦ rw e ((λ p. refl), d)
  | inr e ↦ rw e (
    (λ p. replaced_members p ps db),
    replace_queue_items-distinct (reordered ps (all_queue_items db)) db d,
  )
]

paths_of-pick :
    (ps : List Bytes) (all : List QueueItem)
    → paths_of (pick ps all) ≡ filter (contains (paths_of all)) ps
unfolding pick
paths_of-pick [] all = refl
paths_of-pick (x ∷ ps) all = elim (Option-cases (find? (λ (q : QueueItem). str_eq q.path x) all)) [
  | inl e ↦ rw (e, pick, filter, find?-none x all e) (paths_of-pick ps all)
  | inr (q, e) ↦
      let (same, there) = find?-some x all q e in
      rw (e, pick, filter, there, same) (ap (◌∷◌ x) (paths_of-pick ps all))
]

Apart-filter : (f : Bytes → Bool) (xs ys : List Bytes) → Apart xs ys → Apart (filter f xs) ys
Apart-filter f [] ys a = tt
Apart-filter f (x ∷ xs) ys (h, a) = ground (arith, h, Apart-filter f xs ys a)

-- The paths of the reordered queue.
abbrev pub reordered_paths : List Bytes → List Bytes → List Bytes
reordered_paths ps old = filter (contains old) ps ++ filter (λ p. not (contains ps p)) old

paths_of-reordered :
    (ps : List Bytes) (all : List QueueItem)
    → paths_of (reordered ps all) ≡ reordered_paths ps (paths_of all)
unfolding reordered
paths_of-reordered ps all =
    rw
      (
        paths_of-append (pick ps all) (filter (λ (q : QueueItem). not (contains ps q.path)) all),
        paths_of-pick ps all,
        paths_of-filter (λ x. not (contains ps x)) all,
      )
      refl

distinct-reordered_paths :
    (ps old : List Bytes)
    → distinct ps ≡ true
    → distinct old ≡ true
    → distinct (reordered_paths ps old) ≡ true
distinct-reordered_paths ps old d e =
    distinct-append _ _ (distinct-filter (contains old) ps d) (distinct-filter _ old e)
      (Apart-filter (contains old) ps _ (Apart-swap _ ps (filter-Apart ps old)))

nothing_queued : (ps : List Bytes) → filter (contains []) ps ≡ []
unfolding contains
nothing_queued [] = refl
nothing_queued (x ∷ ps) = nothing_queued ps

is_empty→eq : (qs : List QueueItem) → is_empty qs ≡ true → qs ≡ []
is_empty→eq [] h = refl
is_empty→eq (q ∷ qs) h = cc

-- Given some paths, each once, over a queue without repetition, `reorder_queued` puts the queued ones
-- first, in the order given, and the other items of the queue behind them, in the order they had.
pub reorder_queued_order :
    (ps : List Bytes) (db : LibraryDb)
    → is_empty ps ≡ false
    → distinct ps ≡ true
    → distinct (paths_of (all_queue_items db)) ≡ true
    → paths_of (all_queue_items (reorder_queued ps db))
      ≡ reordered_paths ps (paths_of (all_queue_items db))
unfolding reorder_queued
reorder_queued_order ps db h d e = elim (Bool-cases (is_empty (all_queue_items db))) [
  | inl none_queued ↦
      rw (h, none_queued, is_empty→eq (all_queue_items db) none_queued, nothing_queued ps) refl
  | inr some_queued ↦
      let rows = reordered ps (all_queue_items db) in
      let new : paths_of rows ≡ reordered_paths ps (paths_of (all_queue_items db)) =
        paths_of-reordered ps (all_queue_items db) in
      let d' : distinct (paths_of rows) ≡ true =
        ap distinct new ∙ distinct-reordered_paths ps (paths_of (all_queue_items db)) d e in
      rw
        (
          h,
          some_queued,
          all_queue_items-replace_queue_items rows db,
          d',
          paths_of-number_from 0 rows,
        )
        new
]
