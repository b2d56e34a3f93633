-- ===== src/Utils/Image.antt =====
-- src/utils/image_dimensions.rs: the width and height in the header of an image. Reading out of bounds
-- panics, and a loop that has used up its rounds where it would go on spins. Where the source writes `|` on operands without a common bit, the sum stands for it.
pub mod Tiff
pub mod Safety
pub mod Headers
pub mod Fuel
use plain_rs.Common.{
  ℕ, zero, suc, ◌+◌, ◌*◌, ◌-◌, ◌/◌, ◌%◌, ◌^◌, Bool, true, false, not, ◌&&◌, ◌||◌, List, [], ◌∷◌,
  Bytes, codes, length, take, drop, if◌then◌else◌, ltb, leb, ◌==◌, str_eq, starts_with, within,
  bit_and, bit_or, Option, none, some,
}
use plain_rs.Common.Int.{ℤ, pos, negsuc}
use plain_rs.Common.Parsed.{Parsed, panics, spins, fails, gives, ◌>>=◌, index, slice}

abbrev pub Size : Type 0
Size = ℤ × ℤ

unfoldable pub le_u16 : Bytes → ℕ → Parsed ℕ
le_u16 b i = do low ← index b i; high ← index b (i + 1); gives (low + high * 256)

unfoldable pub be_u16 : Bytes → ℕ → Parsed ℕ
be_u16 b i = do high ← index b i; low ← index b (i + 1); gives (high * 256 + low)

unfoldable pub le_u32 : Bytes → ℕ → Parsed ℕ
le_u32 b i = do low ← le_u16 b i; high ← le_u16 b (i + 2); gives (low + high * 65536)

unfoldable pub be_u32 : Bytes → ℕ → Parsed ℕ
be_u32 b i = do high ← be_u16 b i; low ← be_u16 b (i + 2); gives (high * 65536 + low)

-- `as i32` of 32 bits
unfoldable pub as_i32 : ℕ → ℤ
as_i32 v = if ltb v (2 ^ 31) then pos v else negsuc (2 ^ 32 - v - 1)

-- `i32::abs`, which wraps round at the least number.
unfoldable pub abs_i32 : ℤ → ℤ
abs_i32 (pos v) = pos v
abs_i32 (negsuc v) = if ltb v (2 ^ 31 - 1) then pos (v + 1) else negsuc v

-- The inner loop of `jpeg`, past the fill bytes: at most `length b` rounds.
unfoldable pub skip_fill : ℕ → Bytes → ℕ → Parsed ℕ
skip_fill zero b i = if ltb i (length b) then spins else gives i
skip_fill (suc fuel) b i =
    let more : Parsed ℕ = do
      x ← index b i
      let rest : Parsed ℕ = skip_fill fuel b (i + 1)
      if x == 0xFF then rest else gives i
    in if ltb i (length b) then more else gives i

unfoldable pub is_sof : ℕ → Bool
is_sof m = within 0xC0 0xCF m && (not (m == 0xC4) && not (m == 0xC8))

-- The frame header behind a marker that stands before `i`.
unfoldable pub sof : Bytes → ℕ → Parsed Size
sof b i =
    let body : Parsed Size = do h ← be_u16 b (i + 3); w ← be_u16 b (i + 5); gives (pos w, pos h)
    in if ltb (length b) (i + 7) then fails else body

-- The outer loop of `jpeg`; every round moves on, so `length b` rounds reach the end.
unfoldable pub jpeg_loop : ℕ → Bytes → ℕ → Parsed Size
jpeg_loop zero b i = if ltb (i + 1) (length b) then spins else fails
jpeg_loop (suc fuel) b i =
    let segment : ℕ → Parsed Size = λ j. do
      seg ← be_u16 b j
      let rest : Parsed Size = jpeg_loop fuel b (j + (2 + (seg - 2)))
      if ltb seg 2 then fails else rest
    in let marker : ℕ → Parsed Size = λ j. do
      m ← index b j
      if is_sof m
          then sof b (j + 1)
          else if m == 0xDA || m == 0xD9
          then fails
          else if ltb (length b) (j + 1 + 2)
          then fails
          else segment (j + 1)
      in let fills : Parsed Size = do
        j ← skip_fill (length b) b i
        if leb (length b) j then fails else marker j
        in let round : Parsed Size = do
          x ← index b i
          let rest : Parsed Size = jpeg_loop fuel b (i + 1)
          if x == 0xFF then fills else rest
          in if ltb (i + 1) (length b) then round else fails

abbrev pub jpeg : Bytes → Parsed Size
jpeg b = jpeg_loop (length b) b 2

unfoldable pub png : Bytes → Parsed Size
png b =
    let body : Parsed Size = do
      chunk ← slice b 12 4
      let size : Parsed Size = do w ← be_u32 b 16; h ← be_u32 b 20; gives (as_i32 w, as_i32 h)
      if not (str_eq chunk (codes "IHDR")) then fails else size
    in if ltb (length b) 24 then fails else body

unfoldable pub gif : Bytes → Parsed Size
gif b =
    let body : Parsed Size = do w ← le_u16 b 6; h ← le_u16 b 8; gives (pos w, pos h)
    in if ltb (length b) 10 then fails else body

unfoldable pub bmp : Bytes → Parsed Size
bmp b =
    let body : Parsed Size = do
      w ← le_u32 b 18
      h ← le_u32 b 22
      gives (abs_i32 (as_i32 w), abs_i32 (as_i32 h))
    in if ltb (length b) 26 then fails else body

unfoldable pub vp8 : Bytes → Parsed Size
vp8 b =
    let body : Parsed Size = do
      w ← le_u16 b 26
      h ← le_u16 b 28
      gives (pos (w % 0x4000), pos (h % 0x4000))
    in if ltb (length b) 30 then fails else body

unfoldable pub vp8l : Bytes → Parsed Size
vp8l b =
    let body : Parsed Size = do
      d0 ← index b 17
      d1 ← index b 18
      d2 ← index b 19
      d3 ← index b 20
      gives (pos (1 + (d1 % 64 * 256 + d0)), pos (1 + (d3 % 16 * 1024 + d2 * 4 + d1 / 64)))
    in if ltb (length b) 21 then fails else body

-- As the source groups it: `+ 1` before `|`.
abbrev pub vp8x_extent : ℕ → ℕ → ℕ → ℕ
vp8x_extent a b c = bit_or (bit_or a (b * 256)) (c * 65536 + 1)

unfoldable pub vp8x : Bytes → Parsed Size
vp8x b =
    let body : Parsed Size = do
      d0 ← index b 24
      d1 ← index b 25
      d2 ← index b 26
      d3 ← index b 27
      d4 ← index b 28
      d5 ← index b 29
      gives (pos (vp8x_extent d0 d1 d2), pos (vp8x_extent d3 d4 d5))
    in if ltb (length b) 30 then fails else body

unfoldable pub webp : Bytes → Parsed Size
webp b =
    let body : Parsed Size = do
      chunk ← slice b 12 4
      if str_eq chunk (codes "VP8 ")
          then vp8 b
          else if str_eq chunk (codes "VP8L")
          then vp8l b
          else if str_eq chunk (codes "VP8X")
          then vp8x b
          else fails
    in if ltb (length b) 16 then fails else body

abbrev pub or_256 : ℕ → ℤ
or_256 v = if v == 0 then pos 256 else pos v

unfoldable pub ico : Bytes → Parsed Size
ico b = do
  count ← le_u16 b 4
  let body : Parsed Size = do w ← index b 6; h ← index b 7; gives (or_256 w, or_256 h)
  if count == 0 then fails else body
