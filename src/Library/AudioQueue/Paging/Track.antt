-- ===== src/Library/AudioQueue/Paging/Track.antt =====
-- `track_at` of src/library/audio_queue.rs against the playback order.
use plain_rs.Common.{
  ℕ, zero, suc, ◌+◌, ◌-◌, ◌≤◌, ◌<◌, ◌≡◌, refl, ap, sym, ◌∙◌, true, false, List, [], ◌∷◌, ◌++◌, map,
  if◌then◌else◌, take, drop, arith, length, get_elem?, length-append, length-map, length-take,
  length-drop, ltb, leb, lt→ltb, le→ltb_false, get_elem?-length, get_elem?-append_left,
  get_elem?-append_right, get_elem?-take, get_elem?-drop,
}
use native.Mathlib.Decide.{dec_lt}
use plain_rs.Common.Int.{pos, -ℤ-pos, ltb-pos, leb-pos, ltb_ℤ, ◌-ℤ◌, to_usize}
use plain_rs.Library.Outcome.{ok, pure}
use plain_rs.Library.Tables.{QueueSourceKind, playlist, library, QueueSource, QueueItem, LibraryDb}
use plain_rs.Library.AudioQueue.{AudioTrack, of_queue_item, LibraryTracks, head?}
use plain_rs.Library.AudioQueue.Index.{Reads, ReadsIn, order_of, before}
use plain_rs.Library.AudioQueue.Paging.{track_at, source_track_in, source_track_at}
use plain_rs.Library.AudioQueue.Paging.Reference.{leb-before, leb-before-add, sub-before}

-- The tracks of the playback order, with `h` tracks in the head.
unfoldable pub play_list : ℕ → List AudioTrack → List QueueItem → List AudioTrack
play_list h tracks queued = take h tracks ++ (map of_queue_item queued ++ drop h tracks)

head?-slice : (r : ℕ) (xs : List AudioTrack) → head? (take 1 (drop r xs)) ≡ get_elem? xs r
head?-slice zero [] = ground arith
head?-slice zero (x ∷ xs) = ground arith
head?-slice (suc r) [] = ground arith
head?-slice (suc r) (x ∷ xs) = head?-slice r xs

ge→leb : (a b : ℕ) → b ≤ a → leb b a ≡ true
ge→leb a b h = ground arith

not_negative : (r : ℕ) → ltb_ℤ (pos r) (pos 0) ≡ false
not_negative r = ground (arith, ltb-pos r 0)

lt→leb_false : (a b : ℕ) → a < b → leb b a ≡ false
lt→leb_false a b h = ground arith

module _ (lib : LibraryTracks) (db : LibraryDb) (src : QueueSource) (tracks : List AudioTrack) where
  source_track_in_lem :
      (k : QueueSourceKind) (r : ℕ)
      → ReadsIn k lib db src tracks
      → source_track_in lib k src (pos r) db ≡ (ok (get_elem? tracks r), db)
  unfolding source_track_in
  source_track_in_lem playlist r e = ap (λ ts. (ok (get_elem? ts r), db)) (sym e)
  source_track_in_lem library r ix = rw (ix.page r 1) (ap (λ a. (ok a, db)) (head?-slice r tracks))
  source_track_in_lem QueueSourceKind.none r e = ap (λ ts. (ok (get_elem? ts r), db)) (sym e)

  module _ (h : ℕ) (queued : List QueueItem) (hh : h ≤ length tracks) where
    length-head : length (take h tracks) ≡ h
    length-head = omega (arith, length-take h tracks)

    length-queue : length (map of_queue_item queued) ≡ length queued
    length-queue = length-map of_queue_item queued

    pub length-play_list : length (play_list h tracks queued) ≡ length queued + length tracks
    unfolding play_list
    length-play_list = omega (
      arith,
      length-append (take h tracks) (map of_queue_item queued ++ drop h tracks),
      length-append (map of_queue_item queued) (drop h tracks),
      length-head,
      length-queue,
      length-drop h tracks,
    )

    play_list_head : (r : ℕ) → r < h → get_elem? (play_list h tracks queued) r ≡ get_elem? tracks r
    unfolding play_list
    play_list_head r hr =
        get_elem?-append_left r (take h tracks) _ (omega (arith, length-head))
        ∙ get_elem?-take r h tracks hr

    play_list_manual :
        (r : ℕ)
        → h ≤ r
        → r < h + length queued
        → get_elem? (play_list h tracks queued) r ≡ get_elem? (map of_queue_item queued) (r - h)
    unfolding play_list
    play_list_manual r hr hm =
        get_elem?-append_right r (take h tracks) _ (omega (arith, length-head))
        ∙ ap (λ j. get_elem? (map of_queue_item queued ++ drop h tracks) (r - j)) length-head
        ∙ get_elem?-append_left (r - h) (map of_queue_item queued) _ (omega (arith, length-queue))

    play_list_tail :
        (r : ℕ)
        → h + length queued ≤ r
        → get_elem? (play_list h tracks queued) r ≡ get_elem? tracks (r - length queued)
    unfolding play_list
    play_list_tail r hr =
        let at : h + (r - h - length queued) ≡ r - length queued = omega arith in
        get_elem?-append_right r (take h tracks) _ (omega (arith, length-head))
        ∙ ap (λ j. get_elem? (map of_queue_item queued ++ drop h tracks) (r - j)) length-head
        ∙ get_elem?-append_right (r - h) (map of_queue_item queued) _ (omega (arith, length-queue))
        ∙ ap (λ j. get_elem? (drop h tracks) (r - h - j)) length-queue
        ∙ get_elem?-drop (r - h - length queued) h tracks
        ∙ ap (get_elem? tracks) at

    -- Inside the order, the three kinds of places.
    track_at_inside :
        (r : ℕ)
        → r < length queued + length tracks
        → track_at lib (order_of src h tracks queued) queued (pos r) ≡ (
            if ltb r h
            then source_track_at lib src (pos r)
            else if ltb r (h + length queued)
            then pure (get_elem? (map of_queue_item queued) (to_usize (pos r -ℤ before h -ℤ pos 1)))
            else source_track_at lib src (pos r -ℤ pos (length queued)))
    unfolding track_at
    track_at_inside r hr =
        rw
          (
            not_negative r,
            leb-pos (length queued + length tracks) r,
            lt→leb_false r (length queued + length tracks) hr,
            leb-before r h,
            leb-before-add r h (length queued),
          )
          refl

    -- If the tracks of the source can be read, `track_at` gives at every rank the track that the playback
    -- order, as one list, holds there, and nothing past its end.
    pub track_at-play_list :
        (r : ℕ)
        → Reads lib db src tracks
        → track_at lib (order_of src h tracks queued) queued (pos r) db
          ≡ (ok (get_elem? (play_list h tracks queued) r), db)
    unfolding track_at source_track_at
    track_at-play_list r e = elim (dec_lt r (length queued + length tracks)) [
      | no out ↦
          rw
            (
              not_negative r,
              leb-pos (length queued + length tracks) r,
              ge→leb r (length queued + length tracks) (omega arith),
              get_elem?-length r (play_list h tracks queued) (omega (arith, length-play_list)),
            )
            refl
      | yes inside ↦ elim (dec_lt r h) [
        | yes hr ↦
            rw
              (
                track_at_inside r inside,
                lt→ltb r h hr,
                source_track_in_lem src.source r e,
                play_list_head r hr,
              )
              refl
        | no hr ↦ elim (dec_lt r (h + length queued)) [
          | yes hm ↦
              rw
                (
                  track_at_inside r inside,
                  le→ltb_false r h (omega arith),
                  lt→ltb r (h + length queued) hm,
                  sub-before r h (omega arith),
                  play_list_manual r (omega arith) hm,
                )
                refl
          | no hm ↦
              rw
                (
                  track_at_inside r inside,
                  le→ltb_false r h (omega arith),
                  le→ltb_false r (h + length queued) (omega arith),
                  -ℤ-pos r (length queued) (omega arith),
                  source_track_in_lem src.source (r - length queued) e,
                  play_list_tail r (omega arith),
                )
                refl
        ]
      ]
    ]
