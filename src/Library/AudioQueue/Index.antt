-- ===== src/Library/AudioQueue/Index.antt =====
-- What the media index answers (`LibraryTracks` in src/library/audio_queue.rs), which the program
-- does not implement, and the playback order computed from it or from a playlist.
pub mod Playback
use plain_rs.Common.{
  ℕ, zero, suc, ◌+◌, ◌≤◌, ◌<◌, ◌≡◌, refl, ap, sym, ◌∙◌, Bool, true, false, not, ◌&&◌, ◌||◌, List,
  [], ◌∷◌, map, Option, none, some, if◌then◌else◌, Bytes, str_eq, str_eq_iff, str_eq_refl, arith,
  Bool-cases, inl, inr, length, take, drop, get_elem?, is_empty, length-map, ltb, ◌==◌,
}
use plain_rs.Common.Int.{ℤ, pos, negsuc, leb_ℤ, to_usize}
use plain_rs.Library.Outcome.{LibraryResult, ok, and_then, pure}
use plain_rs.Library.Tables.{
  QueueSourceKind, playlist, library, QueueSource, QueueItem, PlaylistItem, LibraryDb, contains,
  distinct, all_queue_items, get_source, save_source, playlist_items,
}
use plain_rs.Library.AudioQueue.{
  AudioTrack, of_playlist_item, LibraryTracks, position, position_from, Order, source_size_of,
  current_pos_in_source, pos_in, library_pos, relocate, playback_order,
}

abbrev pub track_paths : List AudioTrack → List Bytes
track_paths = map (λ (a : AudioTrack). a.path)

abbrev pub has_path : Bytes → AudioTrack → Bool
has_path path a = str_eq a.path path

abbrev pub path_of : Option AudioTrack → Option Bytes
path_of none = none
path_of (some a) = some a.path

-- The index lists `tracks`, each path once, under the order that is asked for.
pub record IsIndex (lib : LibraryTracks) (sort_by : Bytes) (tracks : List AudioTrack) : Type 0 where
  pub unique : distinct (track_paths tracks) ≡ true
  pub count : lib.library_count ≡ ok (length tracks)
  pub path_at : (i : ℕ) → lib.library_path_at i sort_by ≡ ok (path_of (get_elem? tracks i))
  pub page : (o l : ℕ) → lib.library_tracks_page o l sort_by ≡ ok (take l (drop o tracks))
  pub locate : (p : Bytes) → lib.library_locate p sort_by ≡ ok (position (has_path p) tracks)
  pub has : (p : Bytes) → lib.library_contains p ≡ ok (contains (track_paths tracks) p)

-- The tracks of the source.
abbrev pub ReadsIn :
    QueueSourceKind → LibraryTracks → LibraryDb → QueueSource → List AudioTrack → Type 0
ReadsIn playlist lib db src tracks =
    tracks ≡ map of_playlist_item (playlist_items db src.playlist_id)
ReadsIn library lib db src tracks = IsIndex lib src.sort_by tracks
ReadsIn QueueSourceKind.none lib db src tracks = tracks ≡ []

abbrev pub Reads : LibraryTracks → LibraryDb → QueueSource → List AudioTrack → Type 0
Reads lib db src = ReadsIn src.source lib db src

-- The number of elements up to the first that passes the test, itself included, and 0 if none does.
bump : ℕ → ℕ
bump zero = 0
bump (suc n) = suc (suc n)

pub count_to {ℓ} : {A : Type ℓ} → (A → Bool) → List A → ℕ
unfolding bump
count_to p [] = 0
count_to p (x ∷ xs) = if p x then 1 else bump (count_to p xs)

-- The tracks of the head: those up to the current one, or none if it is not in the source.
unfoldable pub head_of : Bytes → List AudioTrack → ℕ
unfolding count_to
head_of path tracks = if is_empty path then 0 else count_to (has_path path) tracks

-- The rank of the last track of a head of `h` tracks: -1 if there is none.
unfoldable pub before : ℕ → ℤ
before zero = negsuc 0
before (suc c) = pos c

pub count_to-le {ℓ} : {A : Type ℓ} (p : A → Bool) (xs : List A) → count_to p xs ≤ length xs
unfolding count_to
count_to-le p [] = omega arith
count_to-le p (x ∷ xs) = ground (arith, count_to-le p xs)

pub head_of-le : (path : Bytes) (tracks : List AudioTrack) → head_of path tracks ≤ length tracks
unfolding head_of
head_of-le path tracks = ground (arith, count_to-le (has_path path) tracks)

shift : ℕ → ℕ → ℤ
shift i zero = negsuc 0
shift i (suc n) = pos (i + n)

position_from-count_to {ℓ} :
    {A : Type ℓ} (i : ℕ) (p : A → Bool) (xs : List A)
    → position_from i p xs ≡ shift i (count_to p xs)
unfolding position_from count_to shift
position_from-count_to i p [] = refl
position_from-count_to i p (x ∷ xs) = ground (arith, position_from-count_to (suc i) p xs)

pub position-before {ℓ} :
    {A : Type ℓ} (p : A → Bool) (xs : List A) → position p xs ≡ before (count_to p xs)
unfolding before shift
position-before p xs = ground (arith, position_from-count_to 0 p xs)

count_to-map :
    (path : Bytes) (items : List PlaylistItem)
    → count_to (has_path path) (map of_playlist_item items)
      ≡ count_to (λ (i : PlaylistItem). str_eq i.audio_path path) items
unfolding count_to of_playlist_item
count_to-map path [] = refl
count_to-map path (i ∷ is) = ground (arith, count_to-map path is)

-- Where each path stands once, the place that holds a path is the first that does.
contains-get_elem? :
    (tracks : List AudioTrack) (i : ℕ) (a : AudioTrack)
    → get_elem? tracks i ≡ some a
    → contains (track_paths tracks) a.path ≡ true
unfolding contains
contains-get_elem? [] i a h = cc
contains-get_elem? (x ∷ xs) zero a h = ground (arith, str_eq_refl a.path)
contains-get_elem? (x ∷ xs) (suc i) a h = ground (arith, contains-get_elem? xs i a)

pub count_to-get_elem? :
    (tracks : List AudioTrack) (i : ℕ) (a : AudioTrack)
    → distinct (track_paths tracks) ≡ true
    → get_elem? tracks i ≡ some a
    → count_to (has_path a.path) tracks ≡ suc i
unfolding count_to distinct
count_to-get_elem? [] i a d h = cc
count_to-get_elem? (x ∷ xs) zero a d h = ground (arith, str_eq_refl a.path)
count_to-get_elem? (x ∷ xs) (suc i) a d h =
    ground (arith, count_to-get_elem? xs i a, contains-get_elem? xs i a, str_eq_iff x.path a.path)

-- The order over `tracks` and the queue, with `h` tracks in the head.
abbrev pub order_of : QueueSource → ℕ → List AudioTrack → List QueueItem → Order
order_of src h tracks queued = record {
  src = src;
  manual_count = length queued;
  source_size = length tracks;
  current_pos = before h;
}
