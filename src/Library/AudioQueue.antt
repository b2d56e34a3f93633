-- ===== src/Library/AudioQueue.antt =====
-- src/library/audio_queue.rs: the playback order of the audio queue, and the operations on it.
-- Time stamps, fresh ids and random numbers are arguments. The media index is the record
-- `LibraryTracks`, whose methods answer from an index that does not change during a call.
pub mod Index
pub mod Paging
pub mod Advance
pub mod Edits
use plain_rs.Common.{
  ℕ, zero, suc, ◌+◌, ◌-◌, ◌%◌, ◌≡◌, Bool, true, false, not, ◌&&◌, ◌||◌, List, [], ◌∷◌, ◌++◌, map,
  Option, none, some, if◌then◌else◌, Bytes, codes, str_eq, any, filter, find?, length, take, drop,
  leb, ltb, ◌==◌, is_empty, get_elem?,
}
use plain_rs.Common.Int.{ℤ, pos, negsuc, leb_ℤ, ltb_ℤ, min_ℤ, ◌+ℤ◌, ◌-ℤ◌, to_usize}
use plain_rs.Library.Outcome.{
  LibraryResult, ok, err, M, pure, lift, get, put, and_then, ◌>>=◌, ◌>>◌,
}
use plain_rs.Library.Tables.{
  QueueSourceKind, playlist, library, QueueSource, default_source, QueueItem, PlaylistItem,
  LibraryDb, contains, get_source, save_source, all_queue_items, replace_queue_items,
  playlist_items,
}

pub record AudioTrack : Type 0 where
  pub title : Bytes
  pub artist : Bytes
  pub path : Bytes
  pub duration_secs : ℤ

unfoldable pub of_queue_item : QueueItem → AudioTrack
of_queue_item q = record {
  title = q.title;
  artist = q.artist;
  path = q.path;
  duration_secs = q.duration_secs;
}

unfoldable pub of_playlist_item : PlaylistItem → AudioTrack
of_playlist_item i = record {
  title = i.title;
  artist = i.artist;
  path = i.audio_path;
  duration_secs = i.duration_secs;
}

-- The trait `LibraryTracks`.
pub record LibraryTracks : Type 0 where
  pub library_count : LibraryResult ℕ
  pub library_path_at : ℕ → Bytes → LibraryResult (Option Bytes)
  pub library_tracks_page : ℕ → ℕ → Bytes → LibraryResult (List AudioTrack)
  pub library_locate : Bytes → Bytes → LibraryResult ℤ
  pub library_contains : Bytes → LibraryResult Bool

-- The implementation for consumers without a media index.
abbrev pub no_library : LibraryTracks
no_library = record {
  library_count = ok 0;
  library_path_at = λ offset sort_by. ok none;
  library_tracks_page = λ offset limit sort_by. ok [];
  library_locate = λ path sort_by. ok (negsuc 0);
  library_contains = λ path. ok false;
}

pub record Order : Type 0 where
  pub src : QueueSource
  pub manual_count : ℕ
  pub source_size : ℕ
  pub current_pos : ℤ

-- `Order::total`
abbrev pub total : Order → ℕ
total o = o.manual_count + o.source_size

-- `iter().position(..).map(|p| p as i64).unwrap_or(-1)`, counted from `i`.
unfoldable pub position_from {ℓ} : {A : Type ℓ} → ℕ → (A → Bool) → List A → ℤ
position_from i p [] = negsuc 0
position_from i p (x ∷ xs) = let rest = position_from (suc i) p xs in if p x then pos i else rest

abbrev pub position {ℓ} : {A : Type ℓ} → (A → Bool) → List A → ℤ
position = position_from 0

abbrev pub head? {ℓ} : {A : Type ℓ} → List A → Option A
head? [] = none
head? (x ∷ xs) = some x

-- `collect::<HashSet<_>>`: each path once.
unfoldable pub to_set : List Bytes → List Bytes
to_set [] = []
to_set (p ∷ ps) = if contains (to_set ps) p then to_set ps else p ∷ to_set ps

module _ (lib : LibraryTracks) where
  abbrev pub Db : Type 0 → Type 0
  Db = M LibraryDb

  pub source_size_of : QueueSourceKind → QueueSource → LibraryDb → LibraryResult ℕ
  source_size_of playlist src db = ok (length (playlist_items db src.playlist_id))
  source_size_of library src db = lib.library_count
  source_size_of QueueSourceKind.none src db = ok 0

  -- The search of the library for the current track, when the cached position does not hold it. A
  -- position that is found is written back.
  pub relocate : QueueSource → M LibraryDb (ℤ × QueueSource)
  relocate src = do
    found ← lift (lib.library_locate src.current_path src.sort_by)
    let src' = record src { current_index = found }
    let save : M LibraryDb (ℤ × QueueSource) = do
      db ← get
      put (save_source src' db)
      pure (found, src')
    if leb_ℤ (pos 0) found then save else pure (found, src)

  abbrev pub holds : Bytes → Option Bytes → Bool
  holds path none = false
  holds path (some p) = str_eq p path

  pub library_pos : QueueSource → ℕ → M LibraryDb (ℤ × QueueSource)
  library_pos src size = do
    let cached = src.current_index
    let inside = leb_ℤ (pos 0) cached && ltb (to_usize cached) size
    let check : M LibraryDb (ℤ × QueueSource) = do
      at ← lift (lib.library_path_at (to_usize cached) src.sort_by)
      if holds src.current_path at then pure (cached, src) else relocate src
    if inside then check else relocate src

  -- `current_pos_in_source`, with the source as the call leaves it.
  pub pos_in : QueueSourceKind → QueueSource → ℕ → M LibraryDb (ℤ × QueueSource)
  pos_in playlist src size db =
      pure
        (
          position (λ (i : PlaylistItem). str_eq i.audio_path src.current_path)
              (playlist_items db src.playlist_id),
          src,
        )
        db
  pos_in library src size db = library_pos src size db
  pos_in QueueSourceKind.none src size db = pure (negsuc 0, src) db

  pub current_pos_in_source : QueueSource → ℕ → M LibraryDb (ℤ × QueueSource)
  current_pos_in_source src size =
      if is_empty src.current_path || size == 0
      then pure (negsuc 0, src)
      else pos_in src.source src size

  pub playback_order : M LibraryDb Order
  playback_order = do
    db ← get
    let src = get_source db
    size ← lift (source_size_of src.source src db)
    (cur, src') ← current_pos_in_source src size
    pure (record {
      src = src';
      manual_count = length (all_queue_items db);
      source_size = size;
      current_pos = cur;
    })
