-- ===== src/Examples/Changes.antt =====
-- The changes of the queue and of the history in src/library/audio_queue.rs on concrete tables.
use plain_rs.Common.{◌≡◌, refl, true, [], ◌∷◌, Bytes, codes, length, ◌≤◌, str_eq}
use plain_rs.Common.Int.{pos}
use plain_rs.Library.Tables.{all_queue_items, paths_of, distinct, contains}
use plain_rs.Library.AudioQueue.Advance.History.{record_history}
use plain_rs.Library.AudioQueue.Advance.Bound.{played, record_history_bound}
use plain_rs.Library.AudioQueue.Edits.{reorder_queued}
use plain_rs.Library.AudioQueue.Edits.Reorder.{
  reordered_paths, reorder_queued_lem, reorder_queued_order,
}
use plain_rs.Library.AudioQueue.Edits.{remove_paths}
use plain_rs.Library.AudioQueue.Edits.Cascade.{Gone, remove_paths_lem}
use plain_rs.Examples.Queue.{two_db, two_db-distinct}

paths_distinct : distinct (codes "x" ∷ codes "b" ∷ []) ≡ true
unfolding distinct contains str_eq
paths_distinct = refl

history_distinct : distinct (played two_db.history) ≡ true
unfolding distinct
history_distinct = refl

-- A path that is not queued is passed over.
reorder_queued_order_example :
    paths_of (all_queue_items (reorder_queued (codes "x" ∷ codes "b" ∷ []) two_db))
    ≡ reordered_paths (codes "x" ∷ codes "b" ∷ []) (paths_of (all_queue_items two_db))
reorder_queued_order_example =
    reorder_queued_order (codes "x" ∷ codes "b" ∷ []) two_db refl paths_distinct two_db-distinct

reorder_queued_lem_example :
    ((p : Bytes)
      → contains (paths_of (all_queue_items (reorder_queued (codes "b" ∷ codes "b" ∷ []) two_db))) p
        ≡ contains (paths_of (all_queue_items two_db)) p)
    × (distinct (paths_of (all_queue_items (reorder_queued (codes "b" ∷ codes "b" ∷ []) two_db)))
        ≡ true)
reorder_queued_lem_example = reorder_queued_lem (codes "b" ∷ codes "b" ∷ []) two_db two_db-distinct

record_history_bound_example :
    (distinct (played (record_history (codes "now") (codes "a") [] [] (pos 1) two_db).history)
      ≡ true)
    × (length (record_history (codes "now") (codes "a") [] [] (pos 1) two_db).history ≤ 250)
record_history_bound_example =
    record_history_bound (codes "now") (codes "a") [] [] (pos 1) two_db history_distinct

b_listed : contains (codes "b" ∷ []) (codes "b") ≡ true
unfolding contains str_eq
b_listed = refl

remove_paths_lem_example : Gone (codes "b") (remove_paths (codes "b" ∷ []) two_db)
remove_paths_lem_example = remove_paths_lem (codes "b" ∷ []) two_db (codes "b") b_listed refl
