-- ===== src/Utils/Utf8.antt =====
-- `String::from_utf8_lossy`, which the percent decoder and the DNS name reader call on raw bytes, as
-- a machine over the bytes: an invalid sequence becomes U+FFFD and the byte that breaks a sequence is
-- read afresh.
use plain_rs.Common.{
  ℕ, zero, suc, ◌<◌, ◌≡◌, refl, true, [], ◌∷◌, ◌++◌, arith, ltb, within, ◌==◌, if◌then◌else◌, Bytes,
  All,
}

-- The replacement character.
abbrev pub fffd : Bytes
fffd = 0xEF ∷ 0xBF ∷ 0xBD ∷ []

-- `expect need lo hi acc`: `acc` begins a sequence that `need` + 1 more bytes complete, the next of
-- them in `lo..=hi`.
pub data State : Type 0 where
  idle : State
  expect : ℕ → ℕ → ℕ → Bytes → State

start : ℕ → Bytes × State
start b =
    if ltb b 0x80
    then (b ∷ [], idle)
    else if within 0xC2 0xDF b
    then ([], expect 0 0x80 0xBF (b ∷ []))
    else if b == 0xE0
    then ([], expect 1 0xA0 0xBF (b ∷ []))
    else if b == 0xED
    then ([], expect 1 0x80 0x9F (b ∷ []))
    else if within 0xE1 0xEF b
    then ([], expect 1 0x80 0xBF (b ∷ []))
    else if b == 0xF0
    then ([], expect 2 0x90 0xBF (b ∷ []))
    else if within 0xF1 0xF3 b
    then ([], expect 2 0x80 0xBF (b ∷ []))
    else if b == 0xF4
    then ([], expect 2 0x80 0x8F (b ∷ []))
    else (fffd, idle)

more : ℕ → Bytes → Bytes × State
more zero acc = (acc, idle)
more (suc need) acc = ([], expect need 0x80 0xBF acc)

step : State → ℕ → Bytes × State
unfolding start more
step idle b = start b
step (expect need lo hi acc) b =
    if within lo hi b then more need (acc ++ (b ∷ [])) else (fffd ++ (start b).0, (start b).1)

lossy_from : State → Bytes → Bytes
unfolding step
lossy_from idle [] = []
lossy_from (expect need lo hi acc) [] = fffd
lossy_from s (b ∷ bs) = (step s b).0 ++ lossy_from (step s b).1 bs

unfoldable pub from_utf8_lossy : Bytes → Bytes
unfolding lossy_from
from_utf8_lossy = lossy_from idle

-- The bytes that a Rust `str` can hold: a concatenation of encoded scalar values.
pub data IsUtf8 : Bytes → Type 0 where
  nil : IsUtf8 []
  one : {a : ℕ} {s : Bytes} → a < 0x80 → IsUtf8 s → IsUtf8 (a ∷ s)
  two :
      {a b : ℕ} {s : Bytes}
      → within 0xC2 0xDF a ≡ true
      → within 0x80 0xBF b ≡ true
      → IsUtf8 s
      → IsUtf8 (a ∷ b ∷ s)
  three :
      {a b c : ℕ} {s : Bytes}
      → within 0xE0 0xEF a ≡ true
      → within (if a == 0xE0 then 0xA0 else 0x80) (if a == 0xED then 0x9F else 0xBF) b ≡ true
      → within 0x80 0xBF c ≡ true
      → IsUtf8 s
      → IsUtf8 (a ∷ b ∷ c ∷ s)
  four :
      {a b c d : ℕ} {s : Bytes}
      → within 0xF0 0xF4 a ≡ true
      → within (if a == 0xF0 then 0x90 else 0x80) (if a == 0xF4 then 0x8F else 0xBF) b ≡ true
      → within 0x80 0xBF c ≡ true
      → within 0x80 0xBF d ≡ true
      → IsUtf8 s
      → IsUtf8 (a ∷ b ∷ c ∷ d ∷ s)

pub from_utf8_lossy_id : {s : Bytes} → IsUtf8 s → from_utf8_lossy s ≡ s
unfolding from_utf8_lossy
from_utf8_lossy_id nil = refl
from_utf8_lossy_id (one {a} {s} h t) = ground (arith, from_utf8_lossy_id t)
from_utf8_lossy_id (two {a} {b} {s} h k t) = ground (arith, from_utf8_lossy_id t)
from_utf8_lossy_id (three {a} {b} {c} {s} h k l t) = ground (arith, from_utf8_lossy_id t)
from_utf8_lossy_id (four {a} {b} {c} {d} {s} h k l m t) = ground (arith, from_utf8_lossy_id t)

pub IsUtf8-bytes : {s : Bytes} → IsUtf8 s → All (λ b. b < 256) s
IsUtf8-bytes nil = tt
IsUtf8-bytes (one h t) = (omega arith, IsUtf8-bytes t)
IsUtf8-bytes (two h k t) = (ground arith, (ground arith, IsUtf8-bytes t))
IsUtf8-bytes (three h k l t) = (ground arith, (ground arith, (ground arith, IsUtf8-bytes t)))
IsUtf8-bytes (four h k l m t) =
    (ground arith, (ground arith, (ground arith, (ground arith, IsUtf8-bytes t))))

-- ASCII in front of valid text.
pub IsUtf8-append : (x : Bytes) {s : Bytes} → All (λ b. b < 0x80) x → IsUtf8 s → IsUtf8 (x ++ s)
IsUtf8-append [] h t = t
IsUtf8-append (b ∷ x) (h, hs) t = one h (IsUtf8-append x hs t)
