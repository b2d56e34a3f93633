-- ===== src/Examples/Queue.antt =====
-- src/library/audio_queue.rs on a playlist of two tracks, of which one is queued.
use plain_rs.Common.{
  ℕ, ◌+◌, ◌≡◌, refl, true, List, [], ◌∷◌, ◌++◌, map, some, Bytes, codes, get_elem?, arith, take,
  drop, if◌then◌else◌, str_eq,
}
use plain_rs.Common.Int.{pos, negsuc}
use plain_rs.Library.Outcome.{ok}
use plain_rs.Library.Tables.{
  playlist, QueueSource, default_source, QueueItem, PlaylistItem, LibraryDb, get_source,
  all_queue_items, paths_of, distinct, playlist_items, parse_stored, order_by, insert_by, contains,
}
use plain_rs.Library.AudioQueue.{
  AudioTrack, of_queue_item, of_playlist_item, no_library, playback_order,
}
use plain_rs.Library.AudioQueue.Index.{Reads, head_of, order_of}
use plain_rs.Library.AudioQueue.Paging.{queue_page_unfiltered, track_at}
use plain_rs.Library.AudioQueue.Paging.Slots.{playback, shown}
use plain_rs.Library.AudioQueue.Paging.Pages.{queue_page-playback}
use plain_rs.Library.AudioQueue.Paging.Track.{play_list, track_at-play_list}
use plain_rs.Library.AudioQueue.Edits.{enqueue, track_paths}
use plain_rs.Library.AudioQueue.Edits.Queue.{enqueue_lem, others}
use plain_rs.Library.AudioQueue.Edits.Playlists.{add_playlist_items}
use plain_rs.Library.AudioQueue.Edits.Rows.{in_playlist, add_playlist_items-distinct}

abbrev pub track_of : Bytes → AudioTrack
track_of p = record { title = p; artist = []; path = p; duration_secs = pos 1 }

abbrev pub item_of : ℕ → Bytes → PlaylistItem
item_of i p = record {
  id = i ∷ [];
  playlist_id = codes "p";
  audio_path = p;
  title = p;
  artist = [];
  duration_secs = pos 1;
  sort_order = pos i;
  added_at = [];
}

abbrev pub queued_of : ℕ → Bytes → QueueItem
queued_of i p = record {
  path = p;
  sort_order = pos i;
  title = p;
  artist = [];
  duration_secs = pos 1;
}

abbrev pub two_tracks : List AudioTrack
two_tracks = track_of (codes "a") ∷ track_of (codes "b") ∷ []

-- The playlist of `a` and `b` plays, with nothing current yet.
abbrev pub playing_source : QueueSource
playing_source = record default_source { source = playlist; playlist_id = codes "p" }

abbrev pub two_db : LibraryDb
two_db = record {
  queue_source = some (record {
    source = codes "PLAYLIST";
    playlist_id = codes "p";
    current_path = [];
    current_index = negsuc 0;
    sort_by = [];
  });
  prefs = [];
  queue_items = queued_of 0 (codes "b") ∷ [];
  all_playlists = [];
  items = item_of 0 (codes "a") ∷ item_of 1 (codes "b") ∷ [];
  history = [];
}

pub two_db-Reads : Reads no_library two_db playing_source two_tracks
unfolding playlist_items order_by insert_by of_playlist_item str_eq
two_db-Reads = refl

two_db-Reads_source : Reads no_library two_db (get_source two_db) two_tracks
unfolding get_source parse_stored str_eq
two_db-Reads_source = two_db-Reads

pub two_db-distinct : distinct (paths_of (all_queue_items two_db)) ≡ true
unfolding distinct all_queue_items order_by insert_by contains
two_db-distinct = refl

queue_page-playback_example : queue_page_unfiltered no_library (pos 0) (pos 10) two_db ≡ (
  ok (
      some (
        shown (paths_of (all_queue_items two_db)) (
          take 10 (
            drop 0 (
              playback
                (head_of (get_source two_db).current_path two_tracks)
                two_tracks
                (map of_queue_item (all_queue_items two_db))))))),
  (playback_order no_library two_db).1,
)
queue_page-playback_example =
    queue_page-playback no_library two_db two_tracks 0 10 two_db-Reads_source

track_at-play_list_example :
    track_at no_library
      (order_of playing_source 1 two_tracks two_db.queue_items)
      two_db.queue_items
      (pos 1)
      two_db
    ≡ (ok (get_elem? (play_list 1 two_tracks two_db.queue_items) 1), two_db)
track_at-play_list_example =
    track_at-play_list no_library two_db playing_source two_tracks 1 two_db.queue_items
      (omega arith) 1 two_db-Reads

enqueue_lem_example : paths_of (all_queue_items (enqueue two_tracks true two_db)) ≡ (
    if distinct (track_paths two_tracks)
    then (if true
        then track_paths two_tracks ++ others two_tracks (paths_of (all_queue_items two_db))
        else others two_tracks (paths_of (all_queue_items two_db)) ++ track_paths two_tracks)
    else paths_of (all_queue_items two_db))
enqueue_lem_example = enqueue_lem two_tracks true two_db refl two_db-distinct

rows_distinct : distinct (in_playlist (codes "p") two_db.items) ≡ true
unfolding distinct contains str_eq
rows_distinct = refl

add_playlist_items-distinct_example :
    distinct (
      in_playlist
        (codes "p")
        (add_playlist_items (λ n. (n + 7) ∷ []) [] (codes "p") two_tracks two_db).1.items)
    ≡ true
add_playlist_items-distinct_example =
    add_playlist_items-distinct (λ n. (n + 7) ∷ []) [] (codes "p") two_tracks two_db rows_distinct
