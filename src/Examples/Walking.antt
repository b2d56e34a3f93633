-- ===== src/Examples/Walking.antt =====
-- The walk of `resolve_next` in src/library/audio_queue.rs over a playlist of two tracks.
use plain_rs.Common.{
  ℕ, zero, suc, ◌+◌, ◌%◌, ◌<◌, ◌≡◌, refl, true, false, List, [], ◌∷◌, Option, none, some, Bytes,
  codes, arith, get_elem?, str_eq,
}
use plain_rs.Common.Int.{ℤ, pos}
use plain_rs.Library.Outcome.{LibraryResult, ok}
use plain_rs.Library.Tables.{QueueItem, LibraryDb, contains}
use plain_rs.Library.AudioQueue.{AudioTrack, no_library, of_queue_item, of_playlist_item}
use plain_rs.Library.AudioQueue.Index.{order_of}
use plain_rs.Library.AudioQueue.Paging.{visible}
use plain_rs.Library.AudioQueue.Paging.Track.{play_list}
use plain_rs.Library.AudioQueue.Advance.{walk, same_path}
use plain_rs.Library.AudioQueue.Advance.Walk.{ahead, EndedIn, walk-ends, walk-first, walk-never}
use plain_rs.Examples.Queue.{two_tracks, track_of, queued_of, playing_source, two_db, two_db-Reads}

-- Both tracks are queued: the playback order is `a b a b`.
abbrev both_queued : List QueueItem
both_queued = queued_of 0 (codes "a") ∷ queued_of 1 (codes "b") ∷ []

abbrev search_from : List Bytes → ℕ → ℕ → LibraryResult (Option (Option AudioTrack × ℤ)) × LibraryDb
search_from superseded fuel r =
    walk no_library (order_of playing_source 0 two_tracks both_queued) both_queued superseded true
      fuel (get_elem? (play_list 0 two_tracks both_queued) r) (pos r) two_db

b_there : get_elem? (play_list 0 two_tracks both_queued) 1 ≡ some (track_of (codes "b"))
unfolding play_list of_queue_item
b_there = refl

b_visible : visible (codes "a" ∷ []) (track_of (codes "b")) ≡ true
unfolding visible contains str_eq
b_visible = refl

-- Only `a` is superseded: from the first place the walk comes to `b`.
walk-ends_example : EndedIn two_db (search_from (codes "a" ∷ []) 1 0)
walk-ends_example =
    walk-ends no_library two_db playing_source 0 two_tracks both_queued (codes "a" ∷ []) true
      two_db-Reads (omega arith) (omega arith) 1 1 0 (track_of (codes "b")) (omega arith) b_there
      b_visible

-- A place that the walk passes, spelled out.
abbrev PassedAt : List Bytes → ℕ → Type 0
PassedAt superseded r =
    (a : AudioTrack) × ((get_elem? (play_list 0 two_tracks both_queued) r ≡ some a)
      × (visible superseded a ≡ false)
      × (same_path a (get_elem? (play_list 0 two_tracks both_queued) ((r + 1) % 4)) ≡ false))

first_Passed : (j : ℕ) → j < 1 → PassedAt (codes "a" ∷ []) (ahead true 4 j 0)
unfolding play_list of_queue_item visible contains str_eq
first_Passed zero h = (track_of (codes "a"), (refl, refl, refl))
first_Passed (suc j) h = absurd (omega arith)

each_Passed : (r : ℕ) → r < 4 → PassedAt (codes "a" ∷ codes "b" ∷ []) r
unfolding play_list of_queue_item of_playlist_item visible contains str_eq
each_Passed zero h = (track_of (codes "a"), (refl, refl, refl))
each_Passed (suc zero) h = (track_of (codes "b"), (refl, refl, refl))
each_Passed (suc (suc zero)) h = (track_of (codes "a"), (refl, refl, refl))
each_Passed (suc (suc (suc zero))) h = (track_of (codes "b"), (refl, refl, refl))
each_Passed (suc (suc (suc (suc r)))) h = absurd (omega arith)

all_Passed : (d r : ℕ) → r < 4 → PassedAt (codes "a" ∷ codes "b" ∷ []) (ahead true 4 d r)
all_Passed zero r h = each_Passed r h
all_Passed (suc d) r h = all_Passed d ((r + 1) % 4) (omega arith)

walk-first_example :
    search_from (codes "a" ∷ []) 1 0 ≡ (ok (some (some (track_of (codes "b")), pos 1)), two_db)
walk-first_example =
    walk-first no_library two_db playing_source 0 two_tracks both_queued (codes "a" ∷ []) true
      two_db-Reads (omega arith) (omega arith) 1 1 0 (track_of (codes "b")) (omega arith)
      first_Passed b_there b_visible

-- Both are superseded, and neighbours have other paths: the walk never ends.
walk-never_example : search_from (codes "a" ∷ codes "b" ∷ []) 100 0 ≡ (ok none, two_db)
walk-never_example =
    walk-never no_library two_db playing_source 0 two_tracks both_queued
      (codes "a" ∷ codes "b" ∷ []) true two_db-Reads (omega arith) (omega arith) 100 0
      (λ d. all_Passed d 0 (omega arith))
