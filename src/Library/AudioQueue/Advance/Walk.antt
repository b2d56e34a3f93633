-- ===== src/Library/AudioQueue/Advance/Walk.antt =====
-- The loop of `resolve_next` that walks past the superseded tracks.
use plain_rs.Common.{
  ℕ, zero, suc, ◌+◌, ◌-◌, ◌%◌, ◌≤◌, ◌<◌, ◌≡◌, refl, ap, ◌∙◌, Bool, true, false, List, Option, none,
  some, Bytes, arith, length, get_elem?, if◌then◌else◌, Bool-cases, inl, inr,
}
use plain_rs.Common.Int.{ℤ, pos, int_laws, ◌+ℤ◌, ◌-ℤ◌, +ℤ-pos}
use plain_rs.Library.Outcome.{LibraryResult, ok}
use plain_rs.Library.Tables.{QueueSource, QueueItem, LibraryDb}
use plain_rs.Library.AudioQueue.{AudioTrack, LibraryTracks}
use plain_rs.Library.AudioQueue.Index.{Reads, order_of}
use plain_rs.Library.AudioQueue.Paging.{visible}
use plain_rs.Library.AudioQueue.Paging.Track.{play_list, track_at-play_list}
use plain_rs.Library.AudioQueue.Advance.{walk, step_rank, rem_ℤ, same_path}

if_at :
    {A S : Type 0} (s : S) (c : Bool) (f g : S → A)
    → (if c then f else g) s ≡ (if c then f s else g s)
if_at s true f g = refl
if_at s false f g = refl

-- The walk has ended, with the database as it was.
abbrev pub EndedIn : LibraryDb → LibraryResult (Option (Option AudioTrack × ℤ)) × LibraryDb → Type 0
EndedIn db out = (res : Option AudioTrack × ℤ) × (out ≡ (ok (some res), db))

-- One step round a circle of `n` ranks, and `d` steps.
abbrev pub turn : Bool → ℕ → ℕ → ℕ
turn true n r = (r + 1) % n
turn false n r = (r + n - 1) % n

abbrev pub ahead : Bool → ℕ → ℕ → ℕ → ℕ
ahead b n zero r = r
ahead b n (suc d) r = ahead b n d (turn b n r)

back-pos : (n r : ℕ) → 1 ≤ n → pos r -ℤ pos 1 +ℤ pos n ≡ pos (r + n - 1)
back-pos n r h = omega int_laws

step_rank-pos : (b : Bool) (n r : ℕ) → 1 ≤ n → step_rank b n (pos r) ≡ pos (turn b n r)
unfolding step_rank rem_ℤ
step_rank-pos true n r h = ap (λ z. rem_ℤ z n) (+ℤ-pos r 1)
step_rank-pos false n r h = ap (λ z. rem_ℤ z n) (back-pos n r h)

module _ (lib : LibraryTracks) (db : LibraryDb) (src : QueueSource) (h : ℕ)
    (tracks : List AudioTrack) (queued : List QueueItem) (superseded : List Bytes) (is_next : Bool)
    (e : Reads lib db src tracks) (hh : h ≤ length tracks)
    (some_track : 1 ≤ length queued + length tracks) where
  abbrev pub slot : ℕ → Option AudioTrack
  slot r = get_elem? (play_list h tracks queued) r

  abbrev pub after : ℕ → ℕ → ℕ
  after d r = ahead is_next (length queued + length tracks) d r

  abbrev pub search : ℕ → ℕ → LibraryResult (Option (Option AudioTrack × ℤ)) × LibraryDb
  search fuel r =
      walk lib (order_of src h tracks queued) queued superseded is_next fuel (slot r) (pos r) db

  walk-visible :
      (fuel r : ℕ) (a : AudioTrack)
      → slot r ≡ some a
      → visible superseded a ≡ true
      → search fuel r ≡ (ok (some (some a, pos r)), db)
  unfolding walk
  walk-visible zero r a at v = rw (at, v) refl
  walk-visible (suc fuel) r a at v = rw (at, v) refl

  walk-hidden :
      (fuel r : ℕ) (a : AudioTrack)
      → slot r ≡ some a
      → visible superseded a ≡ false
      → search (suc fuel) r ≡ (
          if same_path a (slot (after 1 r))
          then (ok (some (some a, pos (after 1 r))), db)
          else search fuel (after 1 r))
  unfolding walk
  walk-hidden fuel r a at v =
      rw
        (
          at,
          v,
          step_rank-pos is_next (length queued + length tracks) r some_track,
          track_at-play_list lib db src tracks h queued hh
              (turn is_next (length queued + length tracks) r) e,
        )
        (if_at db (same_path a (slot (after 1 r))) _ _)

  -- One round keeps an end.
  step :
      (fuel r : ℕ) (s : Option AudioTrack)
      → slot r ≡ s
      → EndedIn db (search fuel (after 1 r))
      → EndedIn db (search (suc fuel) r)
  unfolding walk
  step fuel r none at rest = ((none, pos r), rw at refl)
  step fuel r (some a) at rest = elim (Bool-cases (visible superseded a)) [
    | inl v ↦ ((some a, pos r), walk-visible (suc fuel) r a at v)
    | inr v ↦ elim (Bool-cases (same_path a (slot (after 1 r)))) [
      | inl same ↦ ((some a, pos (after 1 r)), walk-hidden fuel r a at v ∙ rw same refl)
      | inr apart ↦ (rest.0, walk-hidden fuel r a at v ∙ rw apart rest.1)
    ]
  ]

  -- A slot that the walk passes: a superseded track whose path differs from the next slot's.
  abbrev pub Passed : ℕ → Type 0
  Passed r =
      (a : AudioTrack) × ((slot r ≡ some a)
        × (visible superseded a ≡ false)
        × (same_path a (slot (after 1 r)) ≡ false))

  pass : (fuel r : ℕ) → Passed r → search (suc fuel) r ≡ search fuel (after 1 r)
  pass fuel r (a, (at, v, apart)) = walk-hidden fuel r a at v ∙ rw apart refl

  -- If the walk, forward or backward, passes some slots and then meets a track that is not superseded,
  -- it ends there, given a round for each slot it passes.
  pub walk-first :
      (fuel d r : ℕ) (a : AudioTrack)
      → d ≤ fuel
      → ((j : ℕ) → j < d → Passed (after j r))
      → slot (after d r) ≡ some a
      → visible superseded a ≡ true
      → search fuel r ≡ (ok (some (some a, pos (after d r))), db)
  walk-first fuel zero r a le before at v = walk-visible fuel r a at v
  walk-first zero (suc d) r a le before at v = absurd (omega arith)
  walk-first (suc fuel) (suc d) r a le before at v =
      pass fuel r (before 0 (omega arith))
      ∙ walk-first fuel d (after 1 r) a (omega arith) (λ j lt. before (suc j) (omega arith)) at v

  -- If some slot within `fuel` steps, forward or backward round the order, holds a track that is not
  -- superseded, then the walk ends.
  pub walk-ends :
      (fuel d r : ℕ) (a : AudioTrack)
      → d ≤ fuel
      → slot (after d r) ≡ some a
      → visible superseded a ≡ true
      → EndedIn db (search fuel r)
  walk-ends zero zero r a le at v = ((some a, pos r), walk-visible zero r a at v)
  walk-ends (suc fuel) zero r a le at v = ((some a, pos r), walk-visible (suc fuel) r a at v)
  walk-ends zero (suc d) r a le at v = absurd (omega arith)
  walk-ends (suc fuel) (suc d) r a le at v =
      step fuel r (slot r) refl (walk-ends fuel d (after 1 r) a (omega arith) at v)

  -- If every slot that the walk can come to holds a superseded track whose path is not the next
  -- slot's, then no number of rounds is enough: the loop of the source does not end.
  pub walk-never : (fuel r : ℕ) → ((d : ℕ) → Passed (after d r)) → search fuel r ≡ (ok none, db)
  unfolding walk
  walk-never zero r all = let (a, (at, v, apart)) = all 0 in rw (at, v) refl
  walk-never (suc fuel) r all = pass fuel r (all 0) ∙ walk-never fuel (after 1 r) (λ d. all (suc d))
