-- ===== src/Library/AudioQueue/Edits/Playlists.antt =====
-- src/library/audio_queue.rs: the rows of a playlist, and starting the library.
use plain_rs.Common.{
  ℕ, suc, Bool, true, false, List, [], ◌∷◌, ◌++◌, Option, none, some, if◌then◌else◌, Bytes, codes,
  length, str_eq, any, ◌==◌,
}
use plain_rs.Common.Int.{ℤ, pos, ◌+ℤ◌, leb_ℤ, to_usize}
use plain_rs.Library.Outcome.{M, pure, lift, get, put, ◌>>=◌, ◌>>◌}
use plain_rs.Library.Tables.{
  QueueSourceKind, playlist, library, QueueSource, default_source, PlaylistItem, LibraryDb,
  playlist_items, insert_playlist_item, get_source, save_source, replace_queue_items,
}
use plain_rs.Library.Tables
use plain_rs.Library.AudioQueue.{AudioTrack, LibraryTracks, head?}
use plain_rs.Library.AudioQueue.Advance.History.{record_history}
use plain_rs.Library.AudioQueue.Edits.{touch_playlist}

-- `existing.last().map(|i| i.sort_order + 1).unwrap_or(0)`
unfoldable pub next_order : List PlaylistItem → ℤ
next_order [] = pos 0
next_order (i ∷ []) = i.sort_order +ℤ pos 1
next_order (i ∷ j ∷ is) = next_order (j ∷ is)

unfoldable pub has_path : Bytes → List PlaylistItem → Bool
has_path path = any (λ (i : PlaylistItem). str_eq i.audio_path path)

abbrev pub row_for : Bytes → Bytes → Bytes → ℤ → AudioTrack → PlaylistItem
row_for now id fresh order a = record {
  id = fresh;
  playlist_id = id;
  audio_path = a.path;
  title = a.title;
  artist = a.artist;
  duration_secs = a.duration_secs;
  sort_order = order;
  added_at = now;
}

-- The loop of `add_playlist_items`: `fresh n` is the id that the n-th new row gets.
unfoldable pub add_rows :
    (ℕ → Bytes)
    → Bytes
    → Bytes
    → List AudioTrack
    → List PlaylistItem
    → ℤ
    → ℕ
    → LibraryDb
    → ℕ × LibraryDb
add_rows fresh now id [] existing next added db = (added, db)
add_rows fresh now id (a ∷ items) existing next added db =
    let row = row_for now id (fresh added) next a in
    elim (has_path a.path existing) [
      | true ↦ add_rows fresh now id items existing next added db
      | false ↦
          add_rows fresh now id items (existing ++ (row ∷ [])) (next +ℤ pos 1) (suc added)
            (insert_playlist_item row db)
    ]

unfoldable pub add_playlist_items :
    (ℕ → Bytes) → Bytes → Bytes → List AudioTrack → LibraryDb → ℕ × LibraryDb
add_playlist_items fresh now id items db =
    let existing = playlist_items db id in
    let (added, db') = add_rows fresh now id items existing (next_order existing) 0 db in
    (added, touch_playlist now id db')

unfoldable pub remove_playlist_item : Bytes → Bytes → Bytes → LibraryDb → LibraryDb
remove_playlist_item now id path db = touch_playlist now id (Tables.remove_playlist_item id path db)

abbrev pub playlist_item_count : LibraryDb → Bytes → ℕ
playlist_item_count db id = length (playlist_items db id)

abbrev pub get_audio_current : LibraryDb → Bytes
get_audio_current db = (get_source db).current_path

unfoldable pub active_playlist_id : LibraryDb → Option Bytes
active_playlist_id db = elim (get_source db).source [
  | playlist ↦ some (get_source db).playlist_id
  | library ↦ none
  | QueueSourceKind.none ↦ none
]

module _ (lib : LibraryTracks) where
  abbrev pub date_desc : Bytes
  date_desc = codes "DATE_DESC"

  pub first_of_page : ℤ → M LibraryDb (Option AudioTrack × ℤ)
  first_of_page index = do
    rows ← lift (lib.library_tracks_page (to_usize index) 1 date_desc)
    pure (head? rows, index)

  -- The track to start with, and its index; `roll` is the random index of a shuffled start.
  pub start_track : Option ℕ → Option Bytes → M LibraryDb (Option AudioTrack × ℤ)
  start_track (some roll) start = first_of_page (pos roll)
  start_track none none = first_of_page (pos 0)
  start_track none (some path) = do
    index ← lift (lib.library_locate path date_desc)
    if leb_ℤ (pos 0) index then first_of_page index else pure (none, index)

  pub play_from : Bytes → Option AudioTrack → ℤ → M LibraryDb (Option AudioTrack)
  play_from now none index = do db ← get; put (save_source default_source db); pure none
  play_from now (some a) index = do
    db ← get
    let src = record default_source {
      source = library;
      current_path = a.path;
      current_index = index;
      sort_by = date_desc;
    }
    put (record_history now a.path a.title a.artist a.duration_secs (save_source src db))
    pure (some a)

  pub set_library_source : Bytes → Option ℕ → Option Bytes → M LibraryDb (Option AudioTrack)
  set_library_source now roll start = do
    before ← get
    put (replace_queue_items [] before)
    size ← lift lib.library_count
    let begin : M LibraryDb (Option AudioTrack) = do
      (first, index) ← start_track roll start
      play_from now first index
    if size == 0 then play_from now none (pos 0) else begin
