-- ===== src/Library/AudioQueue/Edits/Queue.antt =====
-- The queue after `enqueue` of src/library/audio_queue.rs.
use plain_rs.Common.{
  ◌≡◌, refl, ap, sym, ◌∙◌, Bool, true, false, not, List, [], ◌∷◌, ◌++◌, map, if◌then◌else◌, Bytes,
  filter, is_empty, Bool-cases, inl, inr, append-nil,
}
use plain_rs.Library.Tables.{QueueItem, LibraryDb, contains, distinct, paths_of, all_queue_items}
use plain_rs.Library.Tables.Laws.{all_queue_items-replace_queue_items, paths_of-number_from}
use plain_rs.Library.Tables.Distinct.{
  distinct-append, distinct-append_false, distinct-filter, filter-Apart, Apart-swap,
  paths_of-filter,
}
use plain_rs.Library.AudioQueue.{AudioTrack}
use plain_rs.Library.AudioQueue.Edits.{enqueue, merged, row_of, track_paths}
use mathlib.Core.List.{map-append}

-- The paths of the queue that the tracks do not name.
abbrev pub others : List AudioTrack → List Bytes → List Bytes
others items = filter (λ p. not (contains (track_paths items) p))

paths_of-row_of : (items : List AudioTrack) → paths_of (map row_of items) ≡ track_paths items
paths_of-row_of [] = refl
paths_of-row_of (a ∷ items) = ap (◌∷◌ a.path) (paths_of-row_of items)

paths_of-merged :
    (items : List AudioTrack) (play_next : Bool) (queued : List QueueItem)
    → paths_of (merged items play_next queued) ≡ (
        if play_next
        then track_paths items ++ others items (paths_of queued)
        else others items (paths_of queued) ++ track_paths items)
unfolding merged
paths_of-merged items true queued = rw (
  map-append,
  paths_of-row_of items,
  paths_of-filter (λ p. not (contains (track_paths items) p)) queued,
)
paths_of-merged items false queued = rw (
  map-append,
  paths_of-row_of items,
  paths_of-filter (λ p. not (contains (track_paths items) p)) queued,
)

paths_of-enqueue :
    (items : List AudioTrack) (play_next : Bool) (db : LibraryDb)
    → is_empty items ≡ false
    → paths_of (all_queue_items (enqueue items play_next db)) ≡ (
        if distinct (paths_of (merged items play_next (all_queue_items db)))
        then paths_of (merged items play_next (all_queue_items db))
        else paths_of (all_queue_items db))
unfolding enqueue
paths_of-enqueue items play_next db h =
    let rows : List QueueItem = merged items play_next (all_queue_items db) in
    rw (h, all_queue_items-replace_queue_items rows db)
      (elim (Bool-cases (distinct (paths_of rows))) [
        | inl e ↦ rw e (paths_of-number_from 0 rows)
        | inr e ↦ rw e
      ])

-- The merged queue repeats a path only if the new tracks do.
distinct-merged :
    (items : List AudioTrack) (play_next : Bool) (queued : List QueueItem)
    → distinct (paths_of queued) ≡ true
    → distinct (paths_of (merged items play_next queued)) ≡ distinct (track_paths items)
distinct-merged items play_next queued d =
    let kept = others items (paths_of queued) in
    let new = track_paths items in
    let ok_kept : distinct kept ≡ true = distinct-filter _ (paths_of queued) d in
    let apart = filter-Apart new (paths_of queued) in
    rw (paths_of-merged items play_next queued) (elim (Bool-cases (distinct new)) [
      | inl e ↦
          cases play_next new kept
            (distinct-append new kept e ok_kept (Apart-swap kept new apart) ∙ sym e)
            (distinct-append kept new ok_kept e apart ∙ sym e)
      | inr e ↦ cases play_next new kept (distinct-append_false [] new kept e ∙ sym e) (
          ap (λ ps. distinct (kept ++ ps)) (sym (append-nil new))
          ∙ distinct-append_false kept new [] e
          ∙ sym e)
    ])
  where
    cases :
        (b : Bool) (new kept : List Bytes)
        → distinct (new ++ kept) ≡ distinct new
        → distinct (kept ++ new) ≡ distinct new
        → distinct (if b then new ++ kept else kept ++ new) ≡ distinct new
    cases true new kept p q = p
    cases false new kept p q = q

-- Over a queue without repetition, `enqueue` of some tracks moves them to the front, or to the end,
-- in their order, and keeps the other items in theirs; but if the tracks repeat a path, the queue
-- stays as it was.
pub enqueue_lem :
    (items : List AudioTrack) (play_next : Bool) (db : LibraryDb)
    → is_empty items ≡ false
    → distinct (paths_of (all_queue_items db)) ≡ true
    → paths_of (all_queue_items (enqueue items play_next db)) ≡ (
        if distinct (track_paths items)
        then (if play_next
            then track_paths items ++ others items (paths_of (all_queue_items db))
            else others items (paths_of (all_queue_items db)) ++ track_paths items)
        else paths_of (all_queue_items db))
enqueue_lem items play_next db h d =
    paths_of-enqueue items play_next db h
    ∙ rw (
      distinct-merged items play_next (all_queue_items db) d,
      paths_of-merged items play_next (all_queue_items db),
    )
