-- ===== src/Library/AudioQueue/Paging/Reference.antt =====
-- The loop of `queue_page_unfiltered` against the slices of the playback order.
use plain_rs.Common.{
  ℕ, zero, suc, ◌+◌, ◌-◌, ◌≤◌, ◌<◌, ◌≡◌, refl, ◌∙◌, min, List, ◌++◌, map, Option, some, Bytes,
  le→ltb_false, lt→ltb, ltb, filter, length, take, drop, arith, append_assoc, append-nil,
}
use native.Mathlib.Decide.{dec_lt}
use plain_rs.Common.Int.{int_laws, leb_ℤ, min_ℤ, -ℤ-pos, +ℤ-pos, ltb-pos, pos, ◌+ℤ◌, ◌-ℤ◌}
use plain_rs.Library.Outcome.{ok, LibraryResult}
use plain_rs.Library.Tables.{QueueItem, QueueSource, LibraryDb}
use plain_rs.Library.AudioQueue.{AudioTrack, of_queue_item, LibraryTracks}
use plain_rs.Library.AudioQueue.Index.{before, order_of}
use plain_rs.Library.AudioQueue.Paging.{visible, source_rows, source_page, page_loop, segment}
use plain_rs.Library.AudioQueue.Paging.Slots.{
  slice, slice_tail, slice_manual, slice_head, slice_empty,
}

pub leb-before : (r h : ℕ) → leb_ℤ (pos r) (before h) ≡ ltb r h
unfolding before
leb-before r zero = ground arith
leb-before r (suc c) = ground arith

pub leb-before-add : (r h m : ℕ) → leb_ℤ (pos r) (before h +ℤ pos m) ≡ ltb r (h + m)
unfolding before ◌+ℤ◌
leb-before-add r zero m = ground arith
leb-before-add r (suc c) m = ground arith

pub before-add_one : (h : ℕ) → before h +ℤ pos 1 ≡ pos h
unfolding before ◌+ℤ◌
before-add_one zero = refl
before-add_one (suc c) = ground arith

pub sub-before : (r h : ℕ) → h ≤ r → pos r -ℤ before h -ℤ pos 1 ≡ pos (r - h)
unfolding before
sub-before r zero h = omega int_laws
sub-before r (suc c) h = omega int_laws

pub min-pos : (a b : ℕ) → min_ℤ (pos a) (pos b) ≡ pos (min a b)
min-pos a b = ground arith

module _ (lib : LibraryTracks) (src : QueueSource) (h : ℕ) (tracks : List AudioTrack)
    (queued : List QueueItem) (sup : List Bytes) (db : LibraryDb)
    (serves : (o l : ℕ)
      → source_rows lib src.source src (pos o) (pos l) db ≡ (ok (take l (drop o tracks)), db)) where
  source_page_lem :
      (o l : ℕ) → source_page lib src (pos o) (pos l) db ≡ (ok (take l (drop o tracks)), db)
  unfolding source_page
  source_page_lem o l = ground (arith, serves o l)

  segment_tail :
      (r e : ℕ)
      → h + length queued ≤ r
      → r < e
      → segment lib (order_of src h tracks queued) queued sup (pos e) (pos r) db
        ≡ (ok (filter (visible sup) (take (e - r) (drop (r - length queued) tracks)), pos e), db)
  unfolding segment
  segment_tail r e hr he = rw (
    leb-before r h,
    leb-before-add r h (length queued),
    le→ltb_false r h (omega arith),
    le→ltb_false r (h + length queued) hr,
    -ℤ-pos r (length queued) (omega arith),
    -ℤ-pos e r (omega arith),
    source_page_lem (r - length queued) (e - r),
  )

  segment_manual :
      (r e : ℕ)
      → h ≤ r
      → r < h + length queued
      → r < e
      → segment lib (order_of src h tracks queued) queued sup (pos e) (pos r) db ≡ (
        ok (
          map of_queue_item (take (min e (h + length queued) - r) (drop (r - h) queued)),
          pos (min e (h + length queued)),
        ),
        db,
      )
  unfolding segment
  segment_manual r e hr he hx = rw (
    leb-before r h,
    leb-before-add r h (length queued),
    le→ltb_false r h hr,
    lt→ltb r (h + length queued) he,
    before-add_one h,
    +ℤ-pos h (length queued),
    min-pos e (h + length queued),
    sub-before r h hr,
    -ℤ-pos (min e (h + length queued)) r (omega arith),
  )

  segment_head :
      (r e : ℕ)
      → r < h
      → r < e
      → segment lib (order_of src h tracks queued) queued sup (pos e) (pos r) db
        ≡ (ok (filter (visible sup) (take (min e h - r) (drop r tracks)), pos (min e h)), db)
  unfolding segment
  segment_head r e hr he = rw (
    leb-before r h,
    lt→ltb r h hr,
    before-add_one h,
    min-pos e h,
    -ℤ-pos (min e h) r (omega arith),
    source_page_lem r (min e h - r),
  )

  -- What the loop renders of the ranks from `r` up to `e`.

  abbrev loop : ℕ → ℕ → ℕ → List AudioTrack → LibraryResult (Option (List AudioTrack)) × LibraryDb
  loop e fuel r out =
      page_loop lib (order_of src h tracks queued) queued sup (pos e) fuel (pos r) out db

  loop_stop :
      (e fuel r : ℕ) (out : List AudioTrack) → e ≤ r → loop e fuel r out ≡ (ok (some out), db)
  unfolding page_loop
  loop_stop e zero r out he = ground arith
  loop_stop e (suc fuel) r out he = rw (ltb-pos r e, le→ltb_false r e he)

  loop_step :
      (e fuel r next : ℕ) (out rows : List AudioTrack)
      → r < e
      → segment lib (order_of src h tracks queued) queued sup (pos e) (pos r) db
        ≡ (ok (rows, pos next), db)
      → loop e (suc fuel) r out ≡ loop e fuel next (out ++ rows)
  unfolding page_loop
  loop_step e fuel r next out rows he s = rw (ltb-pos r e, lt→ltb r e he, s)

  module _ (hh : h ≤ length tracks) where
    abbrev Renders : ℕ → ℕ → ℕ → Type 0
    Renders e fuel r =
        (out : List AudioTrack)
        → loop e fuel r out ≡ (ok (some (out ++ slice h tracks queued sup r e)), db)

    loop_end : (e fuel r : ℕ) → e ≤ r → Renders e fuel r
    loop_end e fuel r he out =
        loop_stop e fuel r out he ∙ rw (slice_empty h tracks queued sup r e he, append-nil)

    -- One round, and the rounds behind it.
    loop_round :
        (e fuel r next : ℕ) (rows : List AudioTrack)
        → r < e
        → segment lib (order_of src h tracks queued) queued sup (pos e) (pos r) db
          ≡ (ok (rows, pos next), db)
        → slice h tracks queued sup r e ≡ rows ++ slice h tracks queued sup next e
        → Renders e fuel next
        → Renders e (suc fuel) r
    loop_round e fuel r next rows he s cut later out =
        loop_step e fuel r next out rows he s ∙ later (out ++ rows) ∙ rw (cut, append_assoc)

    loop_tail : (e fuel r : ℕ) → h + length queued ≤ r → Renders e (suc fuel) r
    loop_tail e fuel r hr = elim (dec_lt r e) [
      | yes he ↦
          loop_round e fuel r e _ he (segment_tail r e hr he)
            (slice_tail h tracks queued sup r e hh hr
              ∙ rw (slice_empty h tracks queued sup e e (omega arith), append-nil))
            (loop_end e fuel e (omega arith))
      | no he ↦ loop_end e (suc fuel) r (omega arith)
    ]

    loop_manual : (e fuel r : ℕ) → h ≤ r → Renders e (suc (suc fuel)) r
    loop_manual e fuel r hr = elim (dec_lt r e) [
      | no he ↦ loop_end e (suc (suc fuel)) r (omega arith)
      | yes he ↦ elim (dec_lt r (h + length queued)) [
        | no hm ↦ loop_tail e (suc fuel) r (omega arith)
        | yes hm ↦
            loop_round e (suc fuel) r (min e (h + length queued)) _ he (segment_manual r e hr hm he)
              (slice_manual h tracks queued sup r e hh hr hm he)
              (from_end (dec_lt e (h + length queued)))
      ]
    ]
      where
        from_end : Dec (e < h + length queued) → Renders e (suc fuel) (min e (h + length queued))
        from_end (yes hx) = loop_end e (suc fuel) _ (omega arith)
        from_end (no hx) = loop_tail e fuel _ (omega arith)

    pub loop_all : (e fuel r : ℕ) → Renders e (suc (suc (suc fuel))) r
    loop_all e fuel r = elim (dec_lt r e) [
      | no he ↦ loop_end e (suc (suc (suc fuel))) r (omega arith)
      | yes he ↦ elim (dec_lt r h) [
        | no hm ↦ loop_manual e (suc fuel) r (omega arith)
        | yes hm ↦
            loop_round e (suc (suc fuel)) r (min e h) _ he (segment_head r e hm he)
              (slice_head h tracks queued sup r e hh hm he) (from_end (dec_lt e h))
      ]
    ]
      where
        from_end : Dec (e < h) → Renders e (suc (suc fuel)) (min e h)
        from_end (yes hx) = loop_end e (suc (suc fuel)) _ (omega arith)
        from_end (no hx) = loop_manual e fuel _ (omega arith)
