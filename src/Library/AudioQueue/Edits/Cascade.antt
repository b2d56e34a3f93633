-- ===== src/Library/AudioQueue/Edits/Cascade.antt =====
-- `remove_paths` of src/library/audio_queue.rs, the cascade for media that are gone.
use plain_rs.Common.{
  ◌≡◌, refl, ap, ◌∙◌, true, false, not, ◌&&◌, List, [], ◌∷◌, map, Bytes, str_eq, str_eq_iff, filter,
  is_empty, arith, Bool-cases, inl, inr,
}
use plain_rs.Common.Int.{negsuc}
use plain_rs.Library.Tables.{
  QueueSource, QueueItem, PlaylistItem, PlayHistory, LibraryDb, contains, paths_of, get_source,
  save_source, remove_queue_paths, remove_history, remove_playlist_items_by_paths,
}
use plain_rs.Library.Tables.Laws.{get_source-save_source}
use plain_rs.Library.AudioQueue.Edits.{remove_paths}

-- Rows without those of some paths.
removed :
    {A : Type 0} (path : A → Bytes) (ps : List Bytes) (rows : List A) (p : Bytes)
    → contains ps p ≡ true
    → contains (map path (filter (λ r. not (contains ps (path r))) rows)) p ≡ false
unfolding contains
removed path ps [] p h = refl
removed path ps (r ∷ rows) p h = ground (arith, str_eq_iff p (path r), removed path ps rows p h)

-- The paths that the tables and the current track name.
abbrev pub Gone : Bytes → LibraryDb → Type 0
Gone p db =
    (contains (paths_of db.queue_items) p ≡ false)
    × (contains (map (λ (h : PlayHistory). h.path) db.history) p ≡ false)
    × (contains (map (λ (i : PlaylistItem). i.audio_path) db.items) p ≡ false)
    × (str_eq (get_source db).current_path p ≡ false)

-- The tables once the rows of the paths are out.
abbrev cascaded : List Bytes → LibraryDb → LibraryDb
cascaded ps db = remove_playlist_items_by_paths ps (remove_history ps (remove_queue_paths ps db))

not_listed : (ps : List Bytes) (p : Bytes) → contains ps p ≡ true → is_empty ps ≡ false
unfolding contains
not_listed [] p h = cc
not_listed (x ∷ ps) p h = refl

tables_Gone :
    (ps : List Bytes) (db : LibraryDb) (p : Bytes)
    → contains ps p ≡ true
    → str_eq (get_source (cascaded ps db)).current_path p ≡ false
    → Gone p (cascaded ps db)
unfolding remove_playlist_items_by_paths remove_history remove_queue_paths
tables_Gone ps db p h current = (
  removed (λ (q : QueueItem). q.path) ps db.queue_items p h,
  removed (λ (g : PlayHistory). g.path) ps db.history p h,
  removed (λ (i : PlaylistItem). i.audio_path) ps db.items p h,
  current,
)

saved_Gone :
    (src : QueueSource) (ps : List Bytes) (db : LibraryDb) (p : Bytes)
    → contains ps p ≡ true
    → str_eq src.current_path p ≡ false
    → Gone p (save_source src (cascaded ps db))
unfolding save_source remove_playlist_items_by_paths remove_history remove_queue_paths
saved_Gone src ps db p h e = (
  removed (λ (q : QueueItem). q.path) ps db.queue_items p h,
  removed (λ (g : PlayHistory). g.path) ps db.history p h,
  removed (λ (i : PlaylistItem). i.audio_path) ps db.items p h,
  ap (λ (r : QueueSource). str_eq r.current_path p) (get_source-save_source src (cascaded ps db))
      ∙ e,
)

empty_apart : (p : Bytes) → is_empty p ≡ false → str_eq [] p ≡ false
unfolding str_eq
empty_apart [] h = cc
empty_apart (b ∷ p) h = refl

other_current :
    (ps : List Bytes) (c p : Bytes)
    → contains ps p ≡ true
    → is_empty p ≡ false
    → (not (is_empty c) && contains ps c) ≡ false
    → str_eq c p ≡ false
other_current ps [] p h some_path e = empty_apart p some_path
other_current ps (b ∷ c) p h some_path e = ground (arith, str_eq_iff (b ∷ c) p, ap (contains ps))

-- After `remove_paths`, no row of the queue, of the history or of a playlist holds any of the paths,
-- and none of them, unless it is the empty path, is current.
pub remove_paths_lem :
    (ps : List Bytes) (db : LibraryDb) (p : Bytes)
    → contains ps p ≡ true
    → is_empty p ≡ false
    → Gone p (remove_paths ps db)
unfolding remove_paths
remove_paths_lem ps db p h some_path =
    let src = get_source (cascaded ps db) in
    elim (Bool-cases (not (is_empty src.current_path) && contains ps src.current_path)) [
      | inl gone ↦
          rw (not_listed ps p h, gone)
            (saved_Gone (record src { current_path = []; current_index = negsuc 0 }) ps db p h
              (empty_apart p some_path))
      | inr kept ↦
          rw (not_listed ps p h, kept)
            (tables_Gone ps db p h (other_current ps src.current_path p h some_path kept))
    ]
