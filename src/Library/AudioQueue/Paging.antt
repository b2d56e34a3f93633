-- ===== src/Library/AudioQueue/Paging.antt =====
-- src/library/audio_queue.rs: reading the playback order, one track or one page at a time.
pub mod Slots
pub mod Reference
pub mod Superseded
pub mod Pages
pub mod Track
use plain_rs.Common.{
  ℕ, zero, suc, ◌+◌, ◌-◌, Bool, true, false, not, ◌&&◌, ◌||◌, List, [], ◌∷◌, ◌++◌, map, Option,
  none, some, if◌then◌else◌, Bytes, filter, length, take, drop, leb, ltb, ◌==◌, is_empty, get_elem?,
}
use plain_rs.Common.Int.{ℤ, pos, negsuc, leb_ℤ, ltb_ℤ, min_ℤ, ◌+ℤ◌, ◌-ℤ◌, to_usize}
use plain_rs.Library.Outcome.{LibraryResult, ok, err, M, pure, lift, get, and_then, ◌>>=◌, ◌>>◌}
use plain_rs.Library.Tables.{
  QueueSourceKind, playlist, library, QueueSource, QueueItem, PlaylistItem, LibraryDb, contains,
  all_queue_items, playlist_items, paths_of,
}
use plain_rs.Library.AudioQueue.{
  AudioTrack, of_queue_item, of_playlist_item, LibraryTracks, Order, total, head?, to_set,
  playback_order,
}

-- A path's copies in the source are superseded if the set holds it.
unfoldable pub visible : List Bytes → AudioTrack → Bool
visible superseded a = not (contains superseded a.path)

module _ (lib : LibraryTracks) where
  pub source_track_in : QueueSourceKind → QueueSource → ℤ → M LibraryDb (Option AudioTrack)
  source_track_in playlist src rank db = (
    ok (get_elem? (map of_playlist_item (playlist_items db src.playlist_id)) (to_usize rank)),
    db,
  )
  source_track_in library src rank db =
      (do rows ← lift (lib.library_tracks_page (to_usize rank) 1 src.sort_by); pure (head? rows)) db
  source_track_in QueueSourceKind.none src rank db = (ok none, db)

  pub source_track_at : QueueSource → ℤ → M LibraryDb (Option AudioTrack)
  source_track_at src = source_track_in src.source src

  pub track_at : Order → List QueueItem → ℤ → M LibraryDb (Option AudioTrack)
  track_at order queued rank =
      if ltb_ℤ rank (pos 0) || leb_ℤ (pos (total order)) rank
      then pure none
      else if leb_ℤ rank order.current_pos
      then source_track_at order.src rank
      else if leb_ℤ rank (order.current_pos +ℤ pos order.manual_count)
      then pure
          (get_elem? (map of_queue_item queued) (to_usize (rank -ℤ order.current_pos -ℤ pos 1)))
      else source_track_at order.src (rank -ℤ pos order.manual_count)

  -- The library's part of `superseded_source_paths`: a lookup for each queued path.
  pub contained : List QueueItem → LibraryResult (List Bytes)
  contained [] = ok []
  contained (q ∷ qs) = elim (lib.library_contains q.path) [
    | err e ↦ err e
    | ok found ↦ elim (contained qs) [
      | err e ↦ err e
      | ok rest ↦ ok (if found then q.path ∷ rest else rest)
    ]
  ]

  pub superseded_in : QueueSourceKind → QueueSource → List QueueItem → M LibraryDb (List Bytes)
  superseded_in playlist src queued db = (
    ok (
        to_set (
          filter (contains (paths_of queued))
            (map (λ (i : PlaylistItem). i.audio_path) (playlist_items db src.playlist_id)))),
    db,
  )
  superseded_in library src queued db = (do out ← lift (contained queued); pure (to_set out)) db
  superseded_in QueueSourceKind.none src queued db = (ok [], db)

  pub superseded_source_paths : Order → List QueueItem → M LibraryDb (List Bytes)
  superseded_source_paths order queued =
      if order.manual_count == 0 then pure [] else superseded_in order.src.source order.src queued

  pub queue_total : M LibraryDb ℕ
  queue_total = do
    order ← playback_order lib
    db ← get
    superseded ← superseded_source_paths order (all_queue_items db)
    pure (total order - length superseded)

  pub source_rows : QueueSourceKind → QueueSource → ℤ → ℤ → M LibraryDb (List AudioTrack)
  source_rows playlist src offset limit db = (
    ok (
        map of_playlist_item
          (take (to_usize limit) (drop (to_usize offset) (playlist_items db src.playlist_id)))),
    db,
  )
  source_rows library src offset limit db =
      (lib.library_tracks_page (to_usize offset) (to_usize limit) src.sort_by, db)
  source_rows QueueSourceKind.none src offset limit db = (ok [], db)

  pub source_page : QueueSource → ℤ → ℤ → M LibraryDb (List AudioTrack)
  source_page src offset limit =
      if leb_ℤ limit (pos 0) then pure [] else source_rows src.source src offset limit

  -- The `while` loop of `queue_page_unfiltered`; it returns the tracks it adds to `out`, and `none`
  -- if the fuel runs out.
  module _ (order : Order) (queued : List QueueItem) (superseded : List Bytes) (end : ℤ) where
    abbrev pub after_head : ℤ
    after_head = order.current_pos +ℤ pos 1

    abbrev pub after_manual : ℤ
    after_manual = order.current_pos +ℤ pos 1 +ℤ pos order.manual_count

    -- One segment: its tracks and the rank where it ends.
    pub segment : ℤ → M LibraryDb (List AudioTrack × ℤ)
    segment rank =
        let head : M LibraryDb (List AudioTrack × ℤ) = do
          rows ← source_page order.src rank (min_ℤ end after_head -ℤ rank)
          pure (filter (visible superseded) rows, min_ℤ end after_head)
        in let tail : M LibraryDb (List AudioTrack × ℤ) = do
          rows ← source_page order.src (rank -ℤ pos order.manual_count) (end -ℤ rank)
          pure (filter (visible superseded) rows, end)
          in if leb_ℤ rank order.current_pos
            then head
            else if leb_ℤ rank (order.current_pos +ℤ pos order.manual_count)
            then pure (
              map of_queue_item (
                  take (to_usize (min_ℤ end after_manual -ℤ rank))
                    (drop (to_usize (rank -ℤ order.current_pos -ℤ pos 1)) queued)),
              min_ℤ end after_manual,
            )
            else tail

    pub page_loop : ℕ → ℤ → List AudioTrack → M LibraryDb (Option (List AudioTrack))
    page_loop zero rank out = if ltb_ℤ rank end then pure none else pure (some out)
    page_loop (suc fuel) rank out =
        let round : M LibraryDb (Option (List AudioTrack)) = do
          (rows, next) ← segment rank
          page_loop fuel next (out ++ rows)
        in if ltb_ℤ rank end then round else pure (some out)

  -- A round ends at a segment's end or at the last rank, so three rounds are enough.
  pub queue_page_unfiltered : ℤ → ℤ → M LibraryDb (Option (List AudioTrack))
  queue_page_unfiltered offset limit = do
    order ← playback_order lib
    db ← get
    let queued = all_queue_items db
    superseded ← superseded_source_paths order queued
    page_loop order queued superseded (min_ℤ (offset +ℤ limit) (pos (total order))) 3
        (pos (to_usize offset)) []
