-- ===== src/Library/AudioQueue/Advance/History.antt =====
-- src/library/audio_queue.rs: `record_history`.
use plain_rs.Common.{◌*◌, ◌/◌, Option, none, some, if◌then◌else◌, Bytes, ltb, length}
use plain_rs.Common.Int.{ℤ, pos, i64_add_one}
use plain_rs.Library.Tables.{PlayHistory, LibraryDb, history_keep}
use plain_rs.Library.Tables.History.{all_history, upsert_history, history_by_path, trim_history}

unfoldable pub history_row : Option PlayHistory → Bytes → Bytes → Bytes → Bytes → ℤ → PlayHistory
history_row (some h) now path title artist duration_secs = record h {
  title = title;
  artist = artist;
  duration_secs = duration_secs;
  play_count = i64_add_one h.play_count;
  played_at = now;
}
history_row none now path title artist duration_secs = record {
  path = path;
  title = title;
  artist = artist;
  duration_secs = duration_secs;
  play_count = pos 1;
  played_at = now;
}

unfoldable pub record_history : Bytes → Bytes → Bytes → Bytes → ℤ → LibraryDb → LibraryDb
unfolding history_row
record_history now path title artist duration_secs db =
    let row = history_row (history_by_path db path) now path title artist duration_secs in
    let db' = upsert_history row db in
    if ltb (history_keep * 5 / 4) (length (all_history db'))
    then trim_history history_keep db'
    else db'
