-- ===== src/Library/AudioQueue/Paging/Superseded.antt =====
-- `superseded_source_paths`: the paths that stand both in the source and in the manual queue.
use plain_rs.Common.{
  ℕ, suc, ◌≡◌, refl, ap, sym, ◌∙◌, Bool, false, ◌&&◌, List, [], ◌∷◌, map, Bytes, str_eq_iff, arith,
  length, ◌==◌, filter,
}
use plain_rs.Library.Outcome.{LibraryResult, ok}
use plain_rs.Library.Tables.{
  QueueSourceKind, playlist, library, QueueSource, QueueItem, PlaylistItem, LibraryDb, contains,
  playlist_items, paths_of,
}
use plain_rs.Library.Tables.Laws.{contains-filter}
use plain_rs.Library.AudioQueue.{AudioTrack, of_playlist_item, LibraryTracks, to_set}
use plain_rs.Library.AudioQueue.Index.{Reads, ReadsIn, IsIndex, track_paths, order_of}
use plain_rs.Library.AudioQueue.Paging.{superseded_in, superseded_source_paths, contained}

pub contains-to_set : (p : Bytes) (ps : List Bytes) → contains (to_set ps) p ≡ contains ps p
unfolding contains to_set
contains-to_set p [] = refl
contains-to_set p (x ∷ ps) =
    ground (arith, contains-to_set p ps, contains-to_set x ps, str_eq_iff p x)

-- The paths are those of the source that are queued too.
pub record Supersedes (m : LibraryDb → LibraryResult (List Bytes) × LibraryDb) (db : LibraryDb)
    (tracks : List AudioTrack) (queued : List QueueItem) : Type 0 where
  pub sup : List Bytes
  pub runs : m db ≡ (ok (to_set sup), db)
  pub members :
      (p : Bytes)
      → contains sup p ≡ (contains (track_paths tracks) p && contains (paths_of queued) p)

suc-ne-zero : (n : ℕ) → (suc n == 0) ≡ false
suc-ne-zero n = ground arith

module _ (lib : LibraryTracks) (db : LibraryDb) (src : QueueSource) (tracks : List AudioTrack) where
  -- The queued paths that the index holds, in the order of the queue.
  abbrev found_of : List QueueItem → List Bytes
  found_of queued = filter (contains (track_paths tracks)) (paths_of queued)

  contained_lem :
      (queued : List QueueItem)
      → IsIndex lib src.sort_by tracks
      → contained lib queued ≡ ok (found_of queued)
  unfolding contained
  contained_lem [] ix = refl
  contained_lem (q ∷ qs) ix = ground (arith, ix.has q.path, contained_lem qs ix)

  playlist_paths :
      (items : List PlaylistItem)
      → map (λ (i : PlaylistItem). i.audio_path) items ≡ track_paths (map of_playlist_item items)
  unfolding of_playlist_item
  playlist_paths [] = refl
  playlist_paths (i ∷ is) = ap (◌∷◌ i.audio_path) (playlist_paths is)

  &&-swap : (a b : Bool) → (a && b) ≡ (b && a)
  &&-swap a b = ground arith

  superseded_in-Supersedes :
      (k : QueueSourceKind) (queued : List QueueItem)
      → ReadsIn k lib db src tracks
      → Supersedes (superseded_in lib k src queued) db tracks queued
  unfolding superseded_in
  superseded_in-Supersedes playlist queued r = record {
    sup = filter (contains (paths_of queued)) (track_paths tracks);
    runs =
        ap (λ ps. (ok (to_set (filter (contains (paths_of queued)) ps)), db))
          (playlist_paths (playlist_items db src.playlist_id) ∙ ap track_paths (sym r));
    members = λ p. contains-filter p (paths_of queued) (track_paths tracks);
  }
  superseded_in-Supersedes library queued r = record {
    sup = found_of queued;
    runs = rw (contained_lem queued r);
    members = λ p.
        contains-filter p (track_paths tracks) (paths_of queued)
        ∙ &&-swap (contains (paths_of queued) p) (contains (track_paths tracks) p);
  }
  superseded_in-Supersedes QueueSourceKind.none queued r = record {
    sup = [];
    runs = unfold to_set in refl;
    members = λ p. rw r (unfold contains in refl);
  }

  pub superseded-Supersedes :
      (h : ℕ) (queued : List QueueItem)
      → Reads lib db src tracks
      → Supersedes
          (superseded_source_paths lib (order_of src h tracks queued) queued)
          db
          tracks
          queued
  unfolding superseded_source_paths
  superseded-Supersedes h [] r = record {
    sup = [];
    runs = unfold to_set in refl;
    members = λ p. unfold contains in ground arith;
  }
  superseded-Supersedes h (q ∷ qs) r =
      rw (suc-ne-zero (length qs)) (superseded_in-Supersedes src.source (q ∷ qs) r)
