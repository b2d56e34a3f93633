-- ===== src/Library/AudioQueue/Paging/Pages.antt =====
-- A page of the queue against the playback order, in src/library/audio_queue.rs.
use plain_rs.Common.{
  ℕ, ◌+◌, ◌-◌, ◌≤◌, ◌≡◌, refl, ap, sym, ◌∙◌, min, true, ◌&&◌, List, [], ◌∷◌, ◌++◌, map, some, Bytes,
  str_eq_refl, take, drop, arith, length, All, All-take, All-drop, All-append, length-append,
  length-map, length-take, length-drop, take-take, take_all, map-take, map-drop, drop-nil, take-nil,
}
use plain_rs.Common.Int.{pos, +ℤ-pos}
use plain_rs.Library.Outcome.{ok}
use plain_rs.Library.Tables.{
  QueueSourceKind, playlist, library, QueueSource, QueueItem, LibraryDb, contains, all_queue_items,
  get_source, paths_of, playlist_items,
}
use plain_rs.Library.Tables.Laws.{contains-cons}
use plain_rs.Library.AudioQueue.{
  AudioTrack, of_queue_item, of_playlist_item, LibraryTracks, to_set, playback_order,
}
use plain_rs.Library.AudioQueue.Index.{Reads, ReadsIn, track_paths, head_of, head_of-le}
use plain_rs.Library.AudioQueue.Index.Playback.{ordered}
use plain_rs.Library.AudioQueue.Paging.{visible, queue_page_unfiltered, source_rows}
use plain_rs.Library.AudioQueue.Paging.Slots.{Slot, manual, source, playback, shown}
use plain_rs.Library.AudioQueue.Paging.Reference.{loop_all, min-pos}
use plain_rs.Library.AudioQueue.Paging.Superseded.{superseded-Supersedes, contains-to_set}

-- Two sets of paths hide the same copies.
abbrev Agree : List Bytes → List Bytes → Slot → Type 0
Agree s t (manual a) = Unit
Agree s t (source a) = visible s a ≡ visible t a

shown-Agree : (s t : List Bytes) (xs : List Slot) → All (Agree s t) xs → shown s xs ≡ shown t xs
unfolding shown
shown-Agree s t [] h = refl
shown-Agree s t (manual a ∷ xs) (h, hs) = ap (◌∷◌ a) (shown-Agree s t xs hs)
shown-Agree s t (source a ∷ xs) (h, hs) = rw (h, shown-Agree s t xs hs)

Agree-source :
    (s t : List Bytes) (xs : List AudioTrack)
    → All (λ a. visible s a ≡ visible t a) xs
    → All (Agree s t) (map source xs)
Agree-source s t [] h = tt
Agree-source s t (a ∷ xs) (h, hs) = (h, Agree-source s t xs hs)

Agree-manual : (s t : List Bytes) (xs : List AudioTrack) → All (Agree s t) (map manual xs)
Agree-manual s t [] = tt
Agree-manual s t (a ∷ xs) = (tt, Agree-manual s t xs)

-- Sets that agree on the paths of the source hide the same of its copies.
agree_on_source :
    (s t ps : List Bytes) (xs : List AudioTrack)
    → ((p : Bytes) → contains s p ≡ (contains ps p && contains t p))
    → ((p : Bytes) → contains (track_paths xs) p ≡ true → contains ps p ≡ true)
    → All (λ a. visible (to_set s) a ≡ visible t a) xs
unfolding visible
agree_on_source s t ps [] m f = tt
agree_on_source s t ps (a ∷ xs) m f = (
  ground (
    arith,
    m a.path,
    f a.path,
    contains-to_set a.path s,
    contains-cons a.path a.path (track_paths xs),
    str_eq_refl a.path,
  ),
  agree_on_source s t ps xs m
      (λ p h. f p (ground (arith, contains-cons p a.path (track_paths xs)))),
)

source_rows_lem :
    (lib : LibraryTracks) (db : LibraryDb) (src : QueueSource) (tracks : List AudioTrack)
    → (k : QueueSourceKind) → ReadsIn k lib db src tracks
    → (o l : ℕ) → source_rows lib k src (pos o) (pos l) db ≡ (ok (take l (drop o tracks)), db)
unfolding source_rows
source_rows_lem lib db src tracks playlist r o l =
    ap (λ ts. (ok ts, db))
      (map-take of_playlist_item l (drop o (playlist_items db src.playlist_id))
        ∙ ap (take l)
            (map-drop of_playlist_item o (playlist_items db src.playlist_id) ∙ ap (drop o) (sym r)))
source_rows_lem lib db src tracks library r o l = ap (λ m. (m, db)) (r.page o l)
source_rows_lem lib db src tracks QueueSourceKind.none r o l = rw (r, drop-nil o, take-nil l)

-- A slice up to the last place, as it is cut.
slice-total :
    (o l : ℕ) (xs : List Slot) (n : ℕ)
    → length xs ≡ n
    → take (min (o + l) n - o) (drop o xs) ≡ take l (drop o xs)
slice-total o l xs n e =
    let at : min (o + l) n - o ≡ min l (length (drop o xs)) = omega (arith, length-drop o xs) in
    ap (λ k. take k (drop o xs)) at
    ∙ sym (take-take l (length (drop o xs)) (drop o xs))
    ∙ ap (take l) (take_all (length (drop o xs)) (drop o xs) (omega arith))

length-playback :
    (h : ℕ) (tracks : List AudioTrack) (queued : List QueueItem)
    → h ≤ length tracks
    → length (playback h tracks (map of_queue_item queued)) ≡ length queued + length tracks
length-playback h tracks queued hh = omega (
  arith,
  length-append (map source (take h tracks))
      (map manual (map of_queue_item queued) ++ map source (drop h tracks)),
  length-append (map manual (map of_queue_item queued)) (map source (drop h tracks)),
  length-map source (take h tracks),
  length-map manual (map of_queue_item queued),
  length-map of_queue_item queued,
  length-map source (drop h tracks),
  length-take h tracks,
  length-drop h tracks,
)

Agree-playback :
    (s t : List Bytes) (h : ℕ) (tracks queued : List AudioTrack)
    → All (λ a. visible s a ≡ visible t a) tracks
    → All (Agree s t) (playback h tracks queued)
Agree-playback s t h tracks queued a =
    All-append _ (map source (take h tracks)) _
      (Agree-source s t (take h tracks) (All-take _ h tracks a))
      (All-append _ (map manual queued) _ (Agree-manual s t queued)
        (Agree-source s t (drop h tracks) (All-drop _ h tracks a)))

-- If the source is a playlist, or a library whose index lists its tracks, each path once, or no
-- source, then the page of `l` ranks from `o` on, without a text filter, holds the tracks of those
-- slots of the playback order (the source up to the current track, the queue, the rest of the
-- source), less the source's copies of queued tracks. The call leaves the tables as `playback_order`
-- leaves them.
pub queue_page-playback :
    (lib : LibraryTracks) (db : LibraryDb) (tracks : List AudioTrack) (o l : ℕ)
    → Reads lib db (get_source db) tracks
    → queue_page_unfiltered lib (pos o) (pos l) db ≡ (
      ok (
          some (
            shown (paths_of (all_queue_items db)) (
              take l (
                drop o (
                  playback
                    (head_of (get_source db).current_path tracks)
                    tracks
                    (map of_queue_item (all_queue_items db))))))),
      (playback_order lib db).1,
    )
unfolding queue_page_unfiltered
queue_page-playback lib db tracks o l r =
    let at = ordered lib db tracks r in
    let h = head_of (get_source db).current_path tracks in
    let queued = all_queue_items db in
    let slots = playback h tracks (map of_queue_item queued) in
    let s = superseded-Supersedes lib at.after at.src tracks h queued at.reads in
    let hh = head_of-le (get_source db).current_path tracks in
    let agree =
      Agree-playback (to_set s.sup) (paths_of queued) h tracks (map of_queue_item queued) (
        agree_on_source s.sup (paths_of queued) (track_paths tracks) tracks s.members (λ p x. x)) in
    rw (at.runs, at.queued, s.runs, +ℤ-pos o l, min-pos (o + l) (length queued + length tracks))
      (loop_all lib at.src h tracks queued (to_set s.sup) at.after
          (source_rows_lem lib at.after at.src tracks at.src.source at.reads) hh
          (min (o + l) (length queued + length tracks)) 0 o []
        ∙ ap (λ ys. (ok (some ys), at.after))
            (ap (shown (to_set s.sup))
                (slice-total o l slots _ (length-playback h tracks queued hh))
              ∙ shown-Agree (to_set s.sup) (paths_of queued) (take l (drop o slots))
                  (All-take _ l (drop o slots) (All-drop _ o slots agree))))
