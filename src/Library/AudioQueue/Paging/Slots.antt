-- ===== src/Library/AudioQueue/Paging/Slots.antt =====
-- The playback order as one list of slots, and the three parts of a slice of it.
use plain_rs.Common.{
  ℕ, ◌+◌, ◌-◌, ◌≤◌, ◌<◌, ◌≡◌, refl, ap, sym, ◌∙◌, min, List, [], ◌∷◌, ◌++◌, map, if◌then◌else◌,
  Bytes, slice_right, slice_left, slice_split, map-take, map-drop, drop-drop, drop-take, take-take,
  filter, length, take, drop, arith, length-map, length-take,
}
use plain_rs.Library.Tables.{QueueItem}
use plain_rs.Library.AudioQueue.{AudioTrack, of_queue_item}
use plain_rs.Library.AudioQueue.Paging.{visible}

-- A place of the playback order: a manual slot, or a place of the source.
pub data Slot : Type 0 where
  manual source : AudioTrack → Slot

abbrev pub track : Slot → AudioTrack
track (manual a) = a
track (source a) = a

-- The head of the source up to the current track, the manual queue, and the rest of the source.
-- `h` is the number of tracks in the head.
abbrev pub playback : ℕ → List AudioTrack → List AudioTrack → List Slot
playback h tracks queued =
    map source (take h tracks) ++ (map manual queued ++ map source (drop h tracks))

-- What is rendered of some slots: the source's copies of queued tracks are left out.
unfoldable pub shown : List Bytes → List Slot → List AudioTrack
shown sup [] = []
shown sup (manual a ∷ r) = a ∷ shown sup r
shown sup (source a ∷ r) = if visible sup a then a ∷ shown sup r else shown sup r

pub shown-append :
    (sup : List Bytes) (xs ys : List Slot) → shown sup (xs ++ ys) ≡ shown sup xs ++ shown sup ys
unfolding shown
shown-append sup [] ys = refl
shown-append sup (manual a ∷ xs) ys = ap (◌∷◌ a) (shown-append sup xs ys)
shown-append sup (source a ∷ xs) ys = ground (arith, shown-append sup xs ys)

pub shown-manual : (sup : List Bytes) (xs : List AudioTrack) → shown sup (map manual xs) ≡ xs
unfolding shown
shown-manual sup [] = refl
shown-manual sup (a ∷ xs) = ap (◌∷◌ a) (shown-manual sup xs)

pub shown-source :
    (sup : List Bytes) (xs : List AudioTrack) → shown sup (map source xs) ≡ filter (visible sup) xs
unfolding shown
shown-source sup [] = refl
shown-source sup (a ∷ xs) = ground (arith, shown-source sup xs)

module _ (h : ℕ) (tracks : List AudioTrack) (queued : List QueueItem) (sup : List Bytes) where
  length-head : h ≤ length tracks → length (map source (take h tracks)) ≡ h
  length-head hh = omega (arith, length-map source (take h tracks), length-take h tracks)

  length-manual : length (map manual (map of_queue_item queued)) ≡ length queued
  length-manual = length-map manual (map of_queue_item queued) ∙ length-map of_queue_item queued

  abbrev slots : List Slot
  slots = playback h tracks (map of_queue_item queued)

  abbrev pub slice : ℕ → ℕ → List AudioTrack
  slice r e = shown sup (take (e - r) (drop r (playback h tracks (map of_queue_item queued))))

  slots_tail :
      (r n : ℕ)
      → h ≤ length tracks
      → h + length queued ≤ r
      → take n (drop r slots) ≡ map source (take n (drop (r - length queued) tracks))
  slots_tail r n hh hr =
      let at : h + (r - h - length queued) ≡ r - length queued = omega arith in
      slice_right r n (map source (take h tracks)) _ (omega (arith, length-head hh))
      ∙ ap
          (λ j.
            take n
              (drop (r - j) (map manual (map of_queue_item queued) ++ map source (drop h tracks))))
          (length-head hh)
      ∙ slice_right (r - h) n (map manual (map of_queue_item queued)) _
          (omega (arith, length-manual))
      ∙ ap (λ j. take n (drop (r - h - j) (map source (drop h tracks)))) length-manual
      ∙ ap (take n) (sym (map-drop source (r - h - length queued) (drop h tracks)))
      ∙ sym (map-take source n (drop (r - h - length queued) (drop h tracks)))
      ∙ ap (λ ys. map source (take n ys))
          (drop-drop (r - h - length queued) h tracks ∙ ap (λ j. drop j tracks) at)

  slots_manual :
      (r x : ℕ)
      → h ≤ length tracks
      → h ≤ r
      → r ≤ x
      → x ≤ h + length queued
      → take (x - r) (drop r slots)
        ≡ map manual (map of_queue_item (take (x - r) (drop (r - h) queued)))
  slots_manual r x hh hr hx hm =
      let at : x - h - (r - h) ≡ x - r = omega arith in
      slice_right r (x - r) (map source (take h tracks)) _ (omega (arith, length-head hh))
      ∙ ap
          (λ j.
            take (x - r)
              (drop (r - j) (map manual (map of_queue_item queued) ++ map source (drop h tracks))))
          (length-head hh)
      ∙ ap
          (λ j.
            take j
              (drop (r - h) (map manual (map of_queue_item queued) ++ map source (drop h tracks))))
          (sym at)
      ∙ slice_left (r - h) (x - h) (map manual (map of_queue_item queued))
          (map source (drop h tracks)) (omega (arith, length-manual)) (omega arith)
      ∙ ap (λ j. take j (drop (r - h) (map manual (map of_queue_item queued)))) at
      ∙ ap (take (x - r)) (
          sym (map-drop manual (r - h) (map of_queue_item queued))
          ∙ ap (map manual) (sym (map-drop of_queue_item (r - h) queued)))
      ∙ sym (map-take manual (x - r) _)
      ∙ ap (map manual) (sym (map-take of_queue_item (x - r) (drop (r - h) queued)))

  slots_head :
      (r x : ℕ)
      → h ≤ length tracks
      → r ≤ x
      → x ≤ h
      → take (x - r) (drop r slots) ≡ map source (take (x - r) (drop r tracks))
  slots_head r x hh hr hx =
      let at : min (x - r) (h - r) ≡ x - r = omega arith in
      slice_left r x (map source (take h tracks)) _ (omega (arith, length-head hh)) hr
      ∙ ap (take (x - r)) (sym (map-drop source r (take h tracks)))
      ∙ sym (map-take source (x - r) (drop r (take h tracks)))
      ∙ ap (map source) (
          ap (take (x - r)) (drop-take r h tracks)
          ∙ take-take (x - r) (h - r) (drop r tracks)
          ∙ ap (λ j. take j (drop r tracks)) at)

  pub slice_tail :
      (r e : ℕ)
      → h ≤ length tracks
      → h + length queued ≤ r
      → slice r e ≡ filter (visible sup) (take (e - r) (drop (r - length queued) tracks))
  slice_tail r e hh hr = ap (shown sup) (slots_tail r (e - r) hh hr) ∙ shown-source sup _

  pub slice_manual :
      (r e : ℕ)
      → h ≤ length tracks
      → h ≤ r
      → r < h + length queued
      → r < e
      → slice r e
        ≡ map of_queue_item (take (min e (h + length queued) - r) (drop (r - h) queued))
          ++ slice (min e (h + length queued)) e
  slice_manual r e hh hr he hx =
      let x : ℕ = min e (h + length queued) in
      ap (shown sup) (slice_split r x e slots (omega arith) (omega arith))
      ∙ shown-append sup _ _
      ∙ ap (λ ys. ys ++ slice x e)
          (ap (shown sup) (slots_manual r x hh hr (omega arith) (omega arith)) ∙ shown-manual sup _)

  pub slice_head :
      (r e : ℕ)
      → h ≤ length tracks
      → r < h
      → r < e
      → slice r e ≡ filter (visible sup) (take (min e h - r) (drop r tracks)) ++ slice (min e h) e
  slice_head r e hh hr he =
      let x : ℕ = min e h in
      ap (shown sup) (slice_split r x e slots (omega arith) (omega arith))
      ∙ shown-append sup _ _
      ∙ ap (λ ys. ys ++ slice x e)
          (ap (shown sup) (slots_head r x hh (omega arith) (omega arith)) ∙ shown-source sup _)

  pub slice_empty : (r e : ℕ) → e ≤ r → slice r e ≡ []
  unfolding shown
  slice_empty r e h = let none_left : e - r ≡ 0 = omega arith in rw none_left
