-- ===== src/Library/AudioQueue/Edits.antt =====
-- src/library/audio_queue.rs: the operations that change the queue, its source and the playlists.
pub mod Queue
pub mod Playlists
pub mod Rows
pub mod Reorder
pub mod Cascade
use plain_rs.Common.{
  ℕ, zero, suc, ◌+◌, Bool, true, false, not, ◌&&◌, ◌||◌, List, [], ◌∷◌, ◌++◌, map, Option, none,
  some, if◌then◌else◌, Bytes, codes, length, filter, find?, str_eq, is_empty, any,
}
use plain_rs.Common.Int.{ℤ, pos, negsuc, ◌+ℤ◌}
use plain_rs.Library.Tables.{
  QueueSourceKind, playlist, library, QueueSource, default_source, QueueItem, Playlist,
  PlaylistItem, LibraryDb, contains, all_queue_items, playlist_items, get_source, save_source,
  paths_of, replace_queue_items, remove_queue_item, remove_queue_paths, remove_history,
  remove_playlist_items_by_paths, playlist_by_id, insert_playlist, update_playlist,
  insert_playlist_item,
}
use plain_rs.Library.Tables
use plain_rs.Library.AudioQueue.{AudioTrack, of_playlist_item, head?}
use plain_rs.Library.AudioQueue.Advance.History.{record_history}

-- Equality of kinds of source.
abbrev is_library : QueueSourceKind → Bool
is_library library = true
is_library _ = false

abbrev is_playlist : QueueSourceKind → Bool
is_playlist playlist = true
is_playlist _ = false

-- The source once `path` plays: a jump in the library breaks the cached position.
playing : Bytes → QueueSource → QueueSource
playing path src = record src {
  current_path = path;
  current_index =
      if is_library src.source && not (str_eq path src.current_path)
      then negsuc 0
      else src.current_index;
}

-- The row is written only if something in it changes, that is, if the path is another one.
unfoldable pub on_playing : Bytes → Bytes → Bytes → Bytes → ℤ → LibraryDb → LibraryDb
unfolding playing
on_playing now path title artist duration_secs db =
    if is_empty path
    then db
    else record_history now path title artist duration_secs (
        if str_eq (get_source db).current_path path
        then db
        else save_source (playing path (get_source db)) db)

unfoldable pub save_audio_current : Bytes → LibraryDb → LibraryDb
save_audio_current path db = save_source (record (get_source db) { current_path = path }) db

abbrev pub row_of : AudioTrack → QueueItem
row_of a = record {
  path = a.path;
  sort_order = pos 0;
  title = a.title;
  artist = a.artist;
  duration_secs = a.duration_secs;
}

abbrev pub track_paths : List AudioTrack → List Bytes
track_paths = map (λ (a : AudioTrack). a.path)

-- The queue that `enqueue` writes: the tracks that are queued anew, and the others behind or before.
unfoldable pub merged : List AudioTrack → Bool → List QueueItem → List QueueItem
merged items play_next queued =
    let kept = filter (λ (q : QueueItem). not (contains (track_paths items) q.path)) queued in
    if play_next then map row_of items ++ kept else kept ++ map row_of items

unfoldable pub enqueue : List AudioTrack → Bool → LibraryDb → LibraryDb
enqueue items play_next db =
    if is_empty items
    then db
    else replace_queue_items (merged items play_next (all_queue_items db)) db

unfoldable pub remove_queued : Bytes → LibraryDb → LibraryDb
remove_queued = remove_queue_item

-- The queued items of the paths, in the order of the paths.
unfoldable pub pick : List Bytes → List QueueItem → List QueueItem
pick [] all = []
pick (p ∷ ps) all = elim (find? (λ (q : QueueItem). str_eq q.path p) all) [
  | none ↦ pick ps all
  | some q ↦ q ∷ pick ps all
]

unfoldable pub reordered : List Bytes → List QueueItem → List QueueItem
reordered paths all = pick paths all ++ filter (λ (q : QueueItem). not (contains paths q.path)) all

unfoldable pub reorder_queued : List Bytes → LibraryDb → LibraryDb
reorder_queued paths db =
    if is_empty paths || is_empty (all_queue_items db)
    then db
    else replace_queue_items (reordered paths (all_queue_items db)) db

unfoldable pub remove_paths : List Bytes → LibraryDb → LibraryDb
remove_paths paths db =
    let db' =
      remove_playlist_items_by_paths paths (remove_history paths (remove_queue_paths paths db)) in
    let src = get_source db' in
    if is_empty paths
    then db
    else if not (is_empty src.current_path) && contains paths src.current_path
    then save_source (record src { current_path = []; current_index = negsuc 0 }) db'
    else db'

unfoldable pub clear_queue : LibraryDb → LibraryDb
clear_queue db = save_source default_source (replace_queue_items [] db)

-- The item to start with: the one of the wanted path, or the first.
unfoldable pub start_item : Option Bytes → PlaylistItem → List PlaylistItem → PlaylistItem
start_item none first items = first
start_item (some p) first items =
    elim (find? (λ (i : PlaylistItem). str_eq i.audio_path p) (first ∷ items)) [
      | none ↦ first
      | some i ↦ i
    ]

begin_playlist :
    Bytes → Bytes → Option Bytes → List PlaylistItem → LibraryDb → Option AudioTrack × LibraryDb
unfolding start_item
begin_playlist now id start [] db = (none, save_source default_source db)
begin_playlist now id start (i ∷ is) db =
    let item = start_item start i is in
    let track = of_playlist_item item in
    let src = record default_source {
      source = playlist;
      playlist_id = id;
      current_path = item.audio_path;
      current_index = item.sort_order;
    } in
    (
      some track,
      record_history now track.path track.title track.artist track.duration_secs
          (save_source src db),
    )

unfoldable pub set_playlist_source :
    Bytes → Bytes → Option Bytes → LibraryDb → Option AudioTrack × LibraryDb
unfolding begin_playlist
set_playlist_source now id start db =
    let db' = replace_queue_items [] db in begin_playlist now id start (playlist_items db' id) db'

-- `touch_playlist` and `rename_playlist` change one row of the table of playlists.
unfoldable pub touch_playlist : Bytes → Bytes → LibraryDb → LibraryDb
touch_playlist now id db = elim (playlist_by_id db id) [
  | none ↦ db
  | some pl ↦ update_playlist (record pl { updated_at = now }) db
]

unfoldable pub rename_playlist : Bytes → Bytes → Bytes → LibraryDb → LibraryDb
rename_playlist now id name db = elim (playlist_by_id db id) [
  | none ↦ db
  | some pl ↦ update_playlist (record pl { name = name; updated_at = now }) db
]

unfoldable pub create_playlist : Bytes → Bytes → Bytes → LibraryDb → Playlist × LibraryDb
create_playlist now id name db =
    let pl : Playlist = record { id = id; name = name; created_at = now; updated_at = now } in
    (pl, insert_playlist pl db)

unfoldable pub delete_playlist : Bytes → LibraryDb → LibraryDb
delete_playlist id db =
    let db' = Tables.delete_playlist_items id (Tables.delete_playlist id db) in
    let src = get_source db' in
    if is_playlist src.source && str_eq src.playlist_id id
    then save_source (record src { source = QueueSourceKind.none; playlist_id = [] }) db'
    else db'
