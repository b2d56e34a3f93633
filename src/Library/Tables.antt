-- ===== src/Library/Tables.antt =====
-- src/library/db/audio_queue.rs: the rows of the audio tables of src/library/db/mod.rs and the
-- statements over them. A table is the list of its rows in the order of insertion; a statement that a
-- constraint refuses changes nothing. Statements do not fail otherwise.
pub mod Laws
pub mod Distinct
pub mod History
use plain_rs.Common.{
  ℕ, ◌+◌, ◌≡◌, Bool, true, false, not, ◌&&◌, List, [], ◌∷◌, ◌++◌, map, Option, if◌then◌else◌, Bytes,
  codes, str_eq, any, filter, find?, length, take, leb, ltb, ◌==◌, lookup, insert, is_empty,
}
use plain_rs.Common.Int.{ℤ, pos, negsuc, leb_ℤ}

-- Play history is trimmed to this many rows once it exceeds 5/4 of it.
abbrev pub history_keep : ℕ
history_keep = 200

pub data QueueSourceKind : Type 0 where
  none playlist library : QueueSourceKind

unfoldable pub as_str : QueueSourceKind → Bytes
as_str none = codes "NONE"
as_str playlist = codes "PLAYLIST"
as_str library = codes "LIBRARY"

unfoldable pub parse_stored : Bytes → QueueSourceKind
parse_stored s =
    if str_eq s (codes "PLAYLIST")
    then playlist
    else if str_eq s (codes "LIBRARY")
    then library
    else none

pub record QueueSource : Type 0 where
  pub source : QueueSourceKind
  pub playlist_id : Bytes
  pub current_path : Bytes
  pub current_index : ℤ
  pub sort_by : Bytes

-- `QueueSource::default`
abbrev pub default_source : QueueSource
default_source = record {
  source = none;
  playlist_id = [];
  current_path = [];
  current_index = negsuc 0;
  sort_by = [];
}

-- The columns of the row of `audio_queue_source`.
pub record SourceRow : Type 0 where
  pub source : Bytes
  pub playlist_id : Bytes
  pub current_path : Bytes
  pub current_index : ℤ
  pub sort_by : Bytes

pub record QueueItem : Type 0 where
  pub path : Bytes
  pub sort_order : ℤ
  pub title : Bytes
  pub artist : Bytes
  pub duration_secs : ℤ

pub record Playlist : Type 0 where
  pub id : Bytes
  pub name : Bytes
  pub created_at : Bytes
  pub updated_at : Bytes

pub record PlaylistItem : Type 0 where
  pub id : Bytes
  pub playlist_id : Bytes
  pub audio_path : Bytes
  pub title : Bytes
  pub artist : Bytes
  pub duration_secs : ℤ
  pub sort_order : ℤ
  pub added_at : Bytes

pub record PlayHistory : Type 0 where
  pub path : Bytes
  pub title : Bytes
  pub artist : Bytes
  pub duration_secs : ℤ
  pub play_count : ℤ
  pub played_at : Bytes

pub record LibraryDb : Type 0 where
  pub queue_source : Option SourceRow
  pub prefs : List (Bytes × Bytes)
  pub queue_items : List QueueItem
  pub all_playlists : List Playlist
  pub items : List PlaylistItem
  pub history : List PlayHistory

-- `ORDER BY key ASC`; rows of one key keep their order.
module _ {A : Type 0} (key : A → ℤ) where
  unfoldable pub insert_by : A → List A → List A
  insert_by x [] = x ∷ []
  insert_by x (y ∷ ys) = if leb_ℤ (key x) (key y) then x ∷ y ∷ ys else y ∷ insert_by x ys

  unfoldable pub order_by : List A → List A
  order_by [] = []
  order_by (x ∷ xs) = insert_by x (order_by xs)

-- `HashSet::contains`, `slice::contains`
unfoldable pub contains : List Bytes → Bytes → Bool
contains paths p = any (str_eq p) paths

-- The queue source and the preferences.

unfoldable pub get_source : LibraryDb → QueueSource
get_source db = elim db.queue_source [
  | Option.none ↦ default_source
  | Option.some r ↦ record {
    source = parse_stored r.source;
    playlist_id = r.playlist_id;
    current_path = r.current_path;
    current_index = r.current_index;
    sort_by = r.sort_by;
  }
]

unfoldable pub save_source : QueueSource → LibraryDb → LibraryDb
save_source src db = record db {
  queue_source = Option.some (record {
    source = as_str src.source;
    playlist_id = src.playlist_id;
    current_path = src.current_path;
    current_index = src.current_index;
    sort_by = src.sort_by;
  });
}

unfoldable pub get_pref : LibraryDb → Bytes → Option Bytes
get_pref db key = lookup key db.prefs

unfoldable pub set_pref : Bytes → Bytes → LibraryDb → LibraryDb
set_pref key value db = record db { prefs = insert key value db.prefs }

-- The manual queue.

unfoldable pub all_queue_items : LibraryDb → List QueueItem
all_queue_items db = order_by (λ (q : QueueItem). q.sort_order) db.queue_items

unfoldable pub queue_item_by_path : LibraryDb → Bytes → Option QueueItem
queue_item_by_path db path = find? (λ q. str_eq q.path path) db.queue_items

-- The rows that `replace_queue_items` inserts, the first at sort order `i`.
unfoldable pub number_from : ℕ → List QueueItem → List QueueItem
number_from i [] = []
number_from i (q ∷ qs) = record q { sort_order = pos i } ∷ number_from (i + 1) qs

-- No two rows share a primary key.
unfoldable pub distinct : List Bytes → Bool
distinct [] = true
distinct (p ∷ ps) = not (contains ps p) && distinct ps

abbrev pub paths_of : List QueueItem → List Bytes
paths_of = map (λ (q : QueueItem). q.path)

-- The transaction commits only if no insert meets a primary key that is taken.
unfoldable pub replace_queue_items : List QueueItem → LibraryDb → LibraryDb
replace_queue_items rows db =
    if distinct (paths_of rows) then record db { queue_items = number_from 0 rows } else db

unfoldable pub remove_queue_item : Bytes → LibraryDb → LibraryDb
remove_queue_item path db = record db {
  queue_items = filter (λ q. not (str_eq q.path path)) db.queue_items;
}

-- `remove_by_paths` on each of the three tables that it is called for.
unfoldable pub remove_queue_paths : List Bytes → LibraryDb → LibraryDb
remove_queue_paths paths db = record db {
  queue_items = filter (λ q. not (contains paths q.path)) db.queue_items;
}

unfoldable pub remove_history : List Bytes → LibraryDb → LibraryDb
remove_history paths db = record db {
  history = filter (λ h. not (contains paths h.path)) db.history;
}

unfoldable pub remove_playlist_items_by_paths : List Bytes → LibraryDb → LibraryDb
remove_playlist_items_by_paths paths db = record db {
  items = filter (λ i. not (contains paths i.audio_path)) db.items;
}

-- Playlists and their items.

unfoldable pub playlist_by_id : LibraryDb → Bytes → Option Playlist
playlist_by_id db id = find? (λ p. str_eq p.id id) db.all_playlists

unfoldable pub insert_playlist : Playlist → LibraryDb → LibraryDb
insert_playlist pl db =
    if any (λ p. str_eq p.id pl.id) db.all_playlists
    then db
    else record db { all_playlists = db.all_playlists ++ (pl ∷ []) }

unfoldable pub update_playlist : Playlist → LibraryDb → LibraryDb
update_playlist pl db = record db {
  all_playlists =
      map
        (λ (p : Playlist).
          if str_eq p.id pl.id then record p { name = pl.name; updated_at = pl.updated_at } else p)
        db.all_playlists;
}

unfoldable pub delete_playlist : Bytes → LibraryDb → LibraryDb
delete_playlist id db = record db {
  all_playlists = filter (λ p. not (str_eq p.id id)) db.all_playlists;
}

unfoldable pub playlist_items : LibraryDb → Bytes → List PlaylistItem
playlist_items db id =
    order_by (λ (i : PlaylistItem). i.sort_order) (filter (λ i. str_eq i.playlist_id id) db.items)

unfoldable pub insert_playlist_item : PlaylistItem → LibraryDb → LibraryDb
insert_playlist_item item db =
    if any (λ i. str_eq i.id item.id) db.items
    then db
    else record db { items = db.items ++ (item ∷ []) }

unfoldable pub delete_playlist_items : Bytes → LibraryDb → LibraryDb
delete_playlist_items id db = record db {
  items = filter (λ i. not (str_eq i.playlist_id id)) db.items;
}

unfoldable pub remove_playlist_item : Bytes → Bytes → LibraryDb → LibraryDb
remove_playlist_item id path db = record db {
  items = filter (λ i. not (str_eq i.playlist_id id && str_eq i.audio_path path)) db.items;
}
