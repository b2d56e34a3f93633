-- ===== src/Library/AudioQueue/Advance.antt =====
-- src/library/audio_queue.rs: `resolve_next`, which advances the current track.
pub mod History
pub mod Walk
pub mod Bound
use plain_rs.Common.{
  ℕ, zero, suc, ◌+◌, ◌-◌, ◌%◌, Bool, true, false, not, ◌&&◌, List, Option, none, some,
  if◌then◌else◌, Bytes, length, ◌==◌, str_eq, is_empty,
}
use plain_rs.Common.Int.{ℤ, pos, negsuc, leb_ℤ, ltb_ℤ, ◌+ℤ◌, ◌-ℤ◌}
use plain_rs.Library.Outcome.{
  LibraryResult, ok, err, M, pure, lift, get, put, and_then, ◌>>=◌, ◌>>◌,
}
use plain_rs.Library.Tables.{
  QueueSourceKind, playlist, library, QueueSource, QueueItem, PlaylistItem, LibraryDb, contains,
  all_queue_items, playlist_items, save_source,
}
use plain_rs.Library.AudioQueue.{
  AudioTrack, LibraryTracks, Order, total, position, position_from, playback_order,
}
use plain_rs.Library.AudioQueue.Paging.{track_at, superseded_source_paths, visible}
use plain_rs.Library.AudioQueue.Advance.History.{record_history}

-- `a % n` of Rust, whose sign is that of `a`.
unfoldable pub rem_ℤ : ℤ → ℕ → ℤ
rem_ℤ (pos a) n = pos (a % n)
rem_ℤ (negsuc a) n = pos 0 -ℤ pos (suc a % n)

abbrev pub queued_position : Bytes → List QueueItem → ℤ
queued_position path = position (λ (q : QueueItem). str_eq q.path path)

unfoldable pub current_rank : Order → List QueueItem → ℤ
unfolding position_from
current_rank order queued =
    if is_empty order.src.current_path
    then negsuc 0
    else if leb_ℤ (pos 0) (queued_position order.src.current_path queued)
    then order.current_pos +ℤ pos 1 +ℤ queued_position order.src.current_path queued
    else order.current_pos

-- The rank after `rank`, or before it, of `n`.
unfoldable pub step_rank : Bool → ℕ → ℤ → ℤ
step_rank true n rank = rem_ℤ (rank +ℤ pos 1) n
step_rank false n rank = rem_ℤ (rank -ℤ pos 1 +ℤ pos n) n

-- Where the search begins: at a random rank, or next to the current one.
unfoldable pub first_target : Bool → Option ℕ → ℕ → ℤ → ℤ
first_target is_next (some roll) n current = pos roll
first_target true none n current =
    step_rank true n (if ltb_ℤ current (pos 0) then negsuc 0 else current)
first_target false none n current =
    step_rank false n (if ltb_ℤ current (pos 0) then pos 0 else current)

abbrev pub same_path : AudioTrack → Option AudioTrack → Bool
same_path a none = false
same_path a (some b) = str_eq b.path a.path

module _ (lib : LibraryTracks) where
  module _ (order : Order) (queued : List QueueItem) (superseded : List Bytes)
      (is_next : Bool) where
    -- The `while let` loop: `none` if the fuel runs out while the track at hand is superseded.
    pub walk : ℕ → Option AudioTrack → ℤ → M LibraryDb (Option (Option AudioTrack × ℤ))
    walk fuel none target = pure (some (none, target))
    walk zero (some a) target =
        if visible superseded a then pure (some (some a, target)) else pure none
    walk (suc fuel) (some a) target =
        let target' = step_rank is_next (total order) target in
        let go : M LibraryDb (Option (Option AudioTrack × ℤ)) = do
          next ← track_at lib order queued target'
          let rest : M LibraryDb (Option (Option AudioTrack × ℤ)) = walk fuel next target'
          if same_path a next then pure (some (some a, target')) else rest
        in if visible superseded a then pure (some (some a, target)) else go

  abbrev path_position : Bytes → List PlaylistItem → ℤ
  path_position path = position (λ (i : PlaylistItem). str_eq i.audio_path path)

  -- The position that `save_current` caches.
  pub source_pos : QueueSourceKind → Order → Bytes → ℤ → LibraryDb → ℤ
  source_pos playlist order path rank db =
      path_position path (playlist_items db order.src.playlist_id)
  source_pos library order path rank db =
      if leb_ℤ (pos 0) order.current_pos && leb_ℤ rank order.current_pos
      then rank
      else if leb_ℤ (pos 0) order.current_pos
          && leb_ℤ rank (order.current_pos +ℤ pos order.manual_count)
      then negsuc 0
      else rank -ℤ pos order.manual_count
  source_pos QueueSourceKind.none order path rank db = negsuc 0

  save_track : Order → ℤ → Option AudioTrack → M LibraryDb (Unit {0})
  save_track order rank none db = (ok tt, db)
  save_track order rank (some a) db = (
    ok tt,
    save_source
        (record order.src {
          current_path = a.path;
          current_index = source_pos order.src.source order a.path rank db;
        })
        db,
  )

  pub save_current : Order → List QueueItem → ℤ → M LibraryDb (Unit {0})
  save_current order queued rank = do
    audio ← track_at lib order queued rank
    save_track order rank audio

  -- The end of `resolve_next`, on what the walk found.
  pub finish :
      Bytes
      → Order
      → List QueueItem
      → List Bytes
      → Option (Option AudioTrack × ℤ)
      → M LibraryDb (Option (Option AudioTrack))
  finish now order queued superseded none = pure none
  finish now order queued superseded (some (none, target)) = pure (some none)
  finish now order queued superseded (some (some a, target)) =
      let found : M LibraryDb (Option (Option AudioTrack)) = do
        save_current order queued target
        db ← get
        put (record_history now a.path a.title a.artist a.duration_secs db)
        pure (some (some a))
      in if visible superseded a then found else pure (some none)

  -- `roll` is the random rank of a shuffled step. `none` is a run that has not ended within the fuel.
  pub resolve_next : ℕ → Bytes → Bool → Option ℕ → M LibraryDb (Option (Option AudioTrack))
  resolve_next fuel now is_next roll = do
    order ← playback_order lib
    db ← get
    let queued = all_queue_items db
    let run : M LibraryDb (Option (Option AudioTrack)) = do
      superseded ← superseded_source_paths lib order queued
      let n = total order - length superseded
      let search : M LibraryDb (Option (Option AudioTrack)) = do
        let target = first_target is_next roll n (current_rank order queued)
        audio ← track_at lib order queued target
        found ← walk order queued superseded is_next fuel audio target
        finish now order queued superseded found
      if n == 0 then pure (some none) else search
    if total order == 0 then pure (some none) else run
