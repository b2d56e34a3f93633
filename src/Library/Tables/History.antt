-- ===== src/Library/Tables/History.antt =====
-- src/library/db/audio_queue.rs: the table of play history.
use plain_rs.Common.{
  ℕ, Bool, true, false, ◌||◌, ◌&&◌, List, [], ◌∷◌, map, Option, if◌then◌else◌, Bytes, str_eq,
  filter, find?, take, ltb, ◌==◌,
}
use plain_rs.Library.Tables.{PlayHistory, LibraryDb, contains}
use mathlib.Core.List.{reverse}

-- The order of texts in SQLite: by bytes.
unfoldable pub str_leb : Bytes → Bytes → Bool
str_leb [] ys = true
str_leb (x ∷ xs) [] = false
str_leb (x ∷ xs) (y ∷ ys) = ltb x y || (x == y && str_leb xs ys)

-- `ORDER BY played_at DESC, rowid DESC`: of the reversed rows, with equal time stamps left as they are.
unfoldable pub insert_newest : PlayHistory → List PlayHistory → List PlayHistory
unfolding str_leb
insert_newest x [] = x ∷ []
insert_newest x (y ∷ ys) =
    if str_leb y.played_at x.played_at then x ∷ y ∷ ys else y ∷ insert_newest x ys

unfoldable pub newest_first : List PlayHistory → List PlayHistory
unfolding insert_newest
newest_first [] = []
newest_first (x ∷ xs) = insert_newest x (newest_first xs)

unfoldable pub all_history : LibraryDb → List PlayHistory
unfolding newest_first
all_history db = newest_first (reverse db.history)

-- The row of one path: replaced where it stands, or added.
unfoldable pub upsert_row : PlayHistory → List PlayHistory → List PlayHistory
upsert_row row [] = row ∷ []
upsert_row row (h ∷ hs) = if str_eq h.path row.path then row ∷ hs else h ∷ upsert_row row hs

unfoldable pub upsert_history : PlayHistory → LibraryDb → LibraryDb
unfolding upsert_row
upsert_history row db = record db { history = upsert_row row db.history }

unfoldable pub history_by_path : LibraryDb → Bytes → Option PlayHistory
history_by_path db path = find? (λ h. str_eq h.path path) db.history

unfoldable pub trim_history : ℕ → LibraryDb → LibraryDb
trim_history keep db = record db {
  history =
      filter (λ h. contains (map (λ (g : PlayHistory). g.path) (take keep (all_history db))) h.path)
        db.history;
}
