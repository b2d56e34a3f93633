-- ===== src/Utils/Image/Headers.antt =====
-- A PNG header, written as the format asks and read by src/utils/image_dimensions.rs.
use plain_rs.Common.{
  ℕ, ◌+◌, ◌*◌, ◌/◌, ◌%◌, ◌≤◌, ◌<◌, ◌≡◌, refl, ◌∷◌, Bytes, length, arith, lt→ltb, le→ltb_false,
  le→leb, false, str_eq, starts_with,
}
use plain_rs.Common.Int.{pos}
use plain_rs.Common.Parsed.{gives, slice_inside}
use plain_rs.Utils.Image.{be_u16, be_u32, as_i32, png}
use plain_rs.Utils.Image.Tiff.{dimensions, is_jpeg}

abbrev pub big_endian : ℕ → Bytes → Bytes
big_endian v rest = v / 16777216 % 256 ∷ v / 65536 % 256 ∷ v / 256 % 256 ∷ v % 256 ∷ rest

-- The signature, the chunk `IHDR`, the width, the height, and anything behind them.
abbrev pub png_file : ℕ → ℕ → Bytes → Bytes
png_file w h rest =
    0x89
    ∷ b'P'
    ∷ b'N'
    ∷ b'G'
    ∷ 0x0d
    ∷ 0x0a
    ∷ 0x1a
    ∷ 0x0a
    ∷ 0
    ∷ 0
    ∷ 0
    ∷ 13
    ∷ b'I'
    ∷ b'H'
    ∷ b'D'
    ∷ b'R'
    ∷ big_endian w (big_endian h rest)

as_i32-small : (v : ℕ) → v < 2147483648 → as_i32 v ≡ pos v
unfolding as_i32
as_i32-small v h = rw (lt→ltb v 2147483648 h) refl

word :
    (v : ℕ)
    → v < 4294967296
    → (v / 16777216 % 256 * 256 + v / 65536 % 256) * 65536 + (v / 256 % 256 * 256 + v % 256) ≡ v
word v h = omega arith

long_file : (w h : ℕ) (rest : Bytes) → 24 ≤ length (png_file w h rest)
long_file w h rest = omega arith

png-png_file :
    (w h : ℕ) (rest : Bytes)
    → w < 2147483648
    → h < 2147483648
    → png (png_file w h rest) ≡ gives (pos w, pos h)
unfolding png be_u32 be_u16 str_eq
png-png_file w h rest hw hh =
    rw
      (
        le→ltb_false (length (png_file w h rest)) 24 (long_file w h rest),
        slice_inside (png_file w h rest) 12 4 (omega (arith, long_file w h rest)),
        word w (omega arith),
        word h (omega arith),
        as_i32-small w hw,
        as_i32-small h hh,
      )
      refl

no_jpeg : (w h : ℕ) (rest : Bytes) → is_jpeg (png_file w h rest) ≡ gives false
no_jpeg w h rest =
    rw (le→leb 2 (length (png_file w h rest)) (omega (arith, long_file w h rest))) refl

-- A PNG file of any width and height below 2^31 is recognised and read as that size, whatever follows
-- its header.
pub dimensions-png_file :
    (w h : ℕ) (rest : Bytes)
    → w < 2147483648
    → h < 2147483648
    → dimensions (png_file w h rest) ≡ gives (pos w, pos h)
unfolding dimensions starts_with
dimensions-png_file w h rest hw hh = rw (no_jpeg w h rest) (png-png_file w h rest hw hh)
