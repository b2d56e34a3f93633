-- ===== src/Library/AudioQueue/Edits/Rows.antt =====
-- The rows of a playlist after `add_playlist_items` of src/library/audio_queue.rs.
use plain_rs.Common.{
  ℕ, suc, ◌≡◌, refl, ap, sym, ◌∙◌, Bool, true, false, ◌||◌, List, [], ◌∷◌, ◌++◌, map, Bytes, str_eq,
  str_eq_iff, any, filter, arith, Bool-cases, inl, inr, Option-cases, str_eq_refl, ◌⊎◌,
}
use plain_rs.Common.Int.{ℤ}
use plain_rs.Library.Tables.{
  PlaylistItem, LibraryDb, contains, distinct, playlist_items, insert_playlist_item, order_by,
  insert_by, update_playlist, playlist_by_id,
}
use plain_rs.Library.Tables.Laws.{contains-append}
use plain_rs.Library.Tables.Distinct.{distinct-append, Apart-swap}
use plain_rs.Library.AudioQueue.{AudioTrack}
use plain_rs.Library.AudioQueue.Edits.{touch_playlist}
use plain_rs.Library.AudioQueue.Edits.Playlists.{
  has_path, row_for, add_rows, add_playlist_items, next_order,
}

-- The paths of the rows of one playlist, in the order of the table.
abbrev pub in_playlist : Bytes → List PlaylistItem → List Bytes
in_playlist id rows =
    map (λ (i : PlaylistItem). i.audio_path)
      (filter (λ (i : PlaylistItem). str_eq i.playlist_id id) rows)

any-insert_by :
    {A : Type 0} (key : A → ℤ) (p : A → Bool) (x : A) (xs : List A)
    → any p (insert_by key x xs) ≡ (p x || any p xs)
unfolding insert_by
any-insert_by key p x [] = ground arith
any-insert_by key p x (y ∷ ys) = ground (arith, any-insert_by key p x ys)

any-order_by :
    {A : Type 0} (key : A → ℤ) (p : A → Bool) (xs : List A) → any p (order_by key xs) ≡ any p xs
unfolding order_by
any-order_by key p [] = refl
any-order_by key p (x ∷ xs) =
    ground (arith, any-insert_by key p x (order_by key xs), any-order_by key p xs)

has_path-append :
    (p : Bytes) (xs ys : List PlaylistItem)
    → has_path p (xs ++ ys) ≡ (has_path p xs || has_path p ys)
unfolding has_path
has_path-append p [] ys = refl
has_path-append p (x ∷ xs) ys = ground (arith, has_path-append p xs ys)

in_playlist-append :
    (id : Bytes) (xs ys : List PlaylistItem)
    → in_playlist id (xs ++ ys) ≡ in_playlist id xs ++ in_playlist id ys
in_playlist-append id [] ys = refl
in_playlist-append id (x ∷ xs) ys = ground (arith, in_playlist-append id xs ys)

has_path-filter :
    (p id : Bytes) (rows : List PlaylistItem)
    → has_path p (filter (λ (i : PlaylistItem). str_eq i.playlist_id id) rows)
      ≡ contains (in_playlist id rows) p
unfolding has_path contains
has_path-filter p id [] = refl
has_path-filter p id (x ∷ rows) =
    ground (arith, str_eq_iff x.audio_path p, str_eq_iff p x.audio_path, has_path-filter p id rows)

in_playlist-insert :
    (id now fresh : Bytes) (order : ℤ) (a : AudioTrack) (db : LibraryDb)
    → let after = in_playlist id (insert_playlist_item (row_for now id fresh order a) db).items in
      (after ≡ in_playlist id db.items) ⊎ (after ≡ in_playlist id db.items ++ (a.path ∷ []))
unfolding insert_playlist_item str_eq
in_playlist-insert id now fresh order a db =
    elim (Bool-cases (any (λ (i : PlaylistItem). str_eq i.id fresh) db.items)) [
      | inl taken ↦ inl (rw taken refl)
      | inr free ↦ inr (
          rw
            (
              free,
              in_playlist-append id db.items (row_for now id fresh order a ∷ []),
              str_eq_refl id,
            )
            refl)
    ]

distinct-snoc :
    (xs : List Bytes) (p : Bytes)
    → distinct xs ≡ true
    → contains xs p ≡ false
    → distinct (xs ++ (p ∷ [])) ≡ true
unfolding distinct contains
distinct-snoc xs p d out = distinct-append xs (p ∷ []) d refl (Apart-swap (p ∷ []) xs (out, tt))

-- The paths of the table are among those that the loop has seen.
abbrev Seen : Bytes → List PlaylistItem → LibraryDb → Type 0
Seen id existing db =
    (p : Bytes) → contains (in_playlist id db.items) p ≡ true → has_path p existing ≡ true

module _ (fresh : ℕ → Bytes) (now id : Bytes) where
  Seen-row_for :
      (a : AudioTrack) (order : ℤ) (n : ℕ) (existing : List PlaylistItem) (db : LibraryDb)
      → Seen id existing db
      → Seen id
          (existing ++ (row_for now id (fresh n) order a ∷ []))
          (insert_playlist_item (row_for now id (fresh n) order a) db)
  unfolding contains has_path
  Seen-row_for a order n existing db seen p h =
      elim (in_playlist-insert id now (fresh n) order a db) [
        | inl same ↦ ground (
          arith,
          has_path-append p existing (row_for now id (fresh n) order a ∷ []),
          seen p (ap (λ ps. contains ps p) (sym same) ∙ h),
        )
        | inr more ↦ ground (
          arith,
          has_path-append p existing (row_for now id (fresh n) order a ∷ []),
          ap (λ ps. contains ps p) (sym more) ∙ h,
          contains-append p (in_playlist id db.items) (a.path ∷ []),
          str_eq_iff p a.path,
          str_eq_iff a.path p,
          seen p,
        )
      ]

  distinct_row :
      (a : AudioTrack) (order : ℤ) (n : ℕ) (existing : List PlaylistItem) (db : LibraryDb)
      → Seen id existing db
      → has_path a.path existing ≡ false
      → distinct (in_playlist id db.items) ≡ true
      → distinct (in_playlist id (insert_playlist_item (row_for now id (fresh n) order a) db).items)
        ≡ true
  distinct_row a order n existing db seen new d =
      elim (in_playlist-insert id now (fresh n) order a db) [
        | inl same ↦ rw same d
        | inr more ↦
            rw more (distinct-snoc (in_playlist id db.items) a.path d (ground (arith, seen a.path)))
      ]

  distinct-add_rows :
      (items : List AudioTrack) (existing : List PlaylistItem) (next : ℤ) (added : ℕ)
      (db : LibraryDb)
      → Seen id existing db
      → distinct (in_playlist id db.items) ≡ true
      → distinct (in_playlist id (add_rows fresh now id items existing next added db).1.items)
        ≡ true
  unfolding add_rows
  distinct-add_rows [] existing next added db seen d = d
  distinct-add_rows (a ∷ items) existing next added db seen d =
      elim (Bool-cases (has_path a.path existing)) [
        | inl there ↦ rw (there, add_rows) (distinct-add_rows items existing next added db seen d)
        | inr new ↦
            rw (new, add_rows)
              (distinct-add_rows items _ _ (suc added) _
                (Seen-row_for a next added existing db seen)
                (distinct_row a next added existing db seen new d))
      ]

Seen-playlist_items : (id : Bytes) (db : LibraryDb) → Seen id (playlist_items db id) db
unfolding has_path playlist_items
Seen-playlist_items id db p h =
    any-order_by (λ (i : PlaylistItem). i.sort_order) (λ (i : PlaylistItem). str_eq i.audio_path p)
      _
    ∙ has_path-filter p id db.items
    ∙ h

items-touch_playlist :
    (now id : Bytes) (db : LibraryDb) → (touch_playlist now id db).items ≡ db.items
unfolding touch_playlist update_playlist
items-touch_playlist now id db = elim (Option-cases (playlist_by_id db id)) [
  | inl e ↦ rw (e, touch_playlist) refl
  | inr (pl, e) ↦ rw (e, touch_playlist) refl
]

-- If no two rows of a playlist hold one path, then none do after `add_playlist_items`, whatever tracks
-- it is given and whatever ids the new rows get.
pub add_playlist_items-distinct :
    (fresh : ℕ → Bytes) (now id : Bytes) (items : List AudioTrack) (db : LibraryDb)
    → distinct (in_playlist id db.items) ≡ true
    → distinct (in_playlist id (add_playlist_items fresh now id items db).1.items) ≡ true
unfolding add_playlist_items
add_playlist_items-distinct fresh now id items db d =
    rw
      (items-touch_playlist now id
        (add_rows fresh now id items (playlist_items db id) (next_order (playlist_items db id)) 0
          db).1)
      (distinct-add_rows fresh now id items (playlist_items db id) _ 0 db
        (Seen-playlist_items id db) d)
