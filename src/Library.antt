-- ===== src/Library.antt =====
-- src/library/: the audio queue, playlists and play history over the library database.
pub mod Outcome
pub mod Tables
pub mod AudioQueue
