-- ===== src/Utils/Image/Tiff.antt =====
-- src/utils/image_dimensions.rs: the size of a TIFF image, and the choice of the format.
use plain_rs.Common.{
  ℕ, zero, suc, ◌+◌, Bool, true, false, ◌&&◌, ◌||◌, [], ◌∷◌, ◌++◌, Bytes, codes, length,
  if◌then◌else◌, ltb, leb, ◌==◌, str_eq, starts_with, Option, none, some,
}
use plain_rs.Common.Int.{ℤ, pos}
use plain_rs.Common.Parsed.{
  Parsed, panics, spins, fails, gives, ◌>>=◌, index, slice, and_then, or_else,
}
use plain_rs.Utils.Image.{
  Size, le_u16, be_u16, le_u32, be_u32, as_i32, jpeg, png, gif, bmp, webp, ico,
}

unfoldable pub u16_at : Bool → Bytes → ℕ → Parsed ℕ
u16_at le b i = if le then le_u16 b i else be_u16 b i

unfoldable pub u32_at : Bool → Bytes → ℕ → Parsed ℕ
u32_at le b i = if le then le_u32 b i else be_u32 b i

-- `tiff.get(off..off + 2)?`: no read out of bounds.
unfoldable pub tiff_read_u16 : Bytes → ℕ → Bool → Parsed ℕ
tiff_read_u16 b off le = if ltb (length b) (off + 2) then fails else u16_at le b off

unfoldable pub tiff_read_u32 : Bytes → ℕ → Bool → Parsed ℕ
tiff_read_u32 b off le = if ltb (length b) (off + 4) then fails else u32_at le b off

unfoldable pub header_with : Bool → Bytes → Parsed (Bool × ℕ)
header_with le b = do
  magic ← u16_at le b 2
  let body : Parsed (Bool × ℕ) = do off ← u32_at le b 4; gives (le, off)
  if magic == 0x002A then body else fails

unfoldable pub parse_tiff_header : Bytes → Parsed (Bool × ℕ)
parse_tiff_header b =
    let body : Parsed (Bool × ℕ) = do
      order ← slice b 0 2
      if str_eq order (codes "II")
          then header_with true b
          else if str_eq order (codes "MM")
          then header_with false b
          else fails
    in if ltb (length b) 8 then fails else body

unfoldable pub tiff_ifd_value_i32 : Bytes → ℕ → Bool → Parsed ℤ
tiff_ifd_value_i32 b entry le = do
  typ ← tiff_read_u16 b (entry + 2) le
  let short : Parsed ℤ = do v ← tiff_read_u16 b (entry + 8) le; gives (pos v)
  let long : Parsed ℤ = do v ← tiff_read_u32 b (entry + 8) le; gives (as_i32 v)
  if typ == 3 then short else if typ == 4 then long else fails

-- A call without `?`: its `None` is kept.
abbrev pub keep : {A : Type 0} → Parsed A → Parsed (Option A)
keep panics = panics
keep spins = spins
keep fails = gives none
keep (gives a) = gives (some a)

-- `Some((width?, height?))`
abbrev pub both : Option ℤ → Option ℤ → Parsed Size
both none h = fails
both (some w) none = fails
both (some w) (some h) = gives (w, h)

abbrev pub found : Option ℤ → Bool
found none = false
found (some v) = true

unfoldable pub entries : ℕ → Bytes → ℕ → Bool → Option ℤ → Option ℤ → Parsed Size
entries zero b entry le width height = both width height
entries (suc count) b entry le width height =
    let next : Option ℤ → Option ℤ → Parsed Size = λ w h.
      let rest = entries count b (entry + 12) le w h in
      if found w && found h then both w h else rest in
    let body : Parsed Size = do
      tag ← tiff_read_u16 b entry le
      let wide : Parsed Size = do w ← keep (tiff_ifd_value_i32 b entry le); next w height
      let high : Parsed Size = do h ← keep (tiff_ifd_value_i32 b entry le); next width h
      if tag == 0x0100 then wide else if tag == 0x0101 then high else next width height
    in if ltb (length b) (entry + 12) then fails else body

unfoldable pub tiff : Bytes → Parsed Size
tiff b = do
  (le, ifd_off) ← parse_tiff_header b
  count ← tiff_read_u16 b ifd_off le
  entries count b (ifd_off + 2) le none none

-- `b[i] == v` and `b[start..start + size] == v`
abbrev pub byte_is : Bytes → ℕ → ℕ → Parsed Bool
byte_is b i v = index b i >>= λ x. gives (x == v)

abbrev pub slice_is : Bytes → ℕ → ℕ → Bytes → Parsed Bool
slice_is b start size v = slice b start size >>= λ x. gives (str_eq x v)

abbrev pub longer : Bytes → ℕ → Parsed Bool
longer b n = gives (leb n (length b))

-- The tests of `dimensions`.
abbrev pub is_jpeg : Bytes → Parsed Bool
is_jpeg b = and_then (longer b 2) (and_then (byte_is b 0 0xFF) (byte_is b 1 0xD8))

abbrev pub is_png : Bytes → Bool
is_png b = starts_with (0x89 ∷ codes "PNG\r\n" ++ (0x1a ∷ 0x0a ∷ [])) b

abbrev pub is_gif : Bytes → Parsed Bool
is_gif b =
    and_then (longer b 6)
      (or_else (slice_is b 0 6 (codes "GIF87a")) (slice_is b 0 6 (codes "GIF89a")))

abbrev pub is_webp : Bytes → Parsed Bool
is_webp b =
    and_then (longer b 12)
      (and_then (slice_is b 0 4 (codes "RIFF")) (slice_is b 8 4 (codes "WEBP")))

abbrev pub is_tiff : Bytes → Bool
is_tiff b = starts_with (codes "II") b || starts_with (codes "MM") b

abbrev pub is_ico : Bytes → Parsed Bool
is_ico b =
    and_then (longer b 8) (and_then (byte_is b 0 0) (and_then (byte_is b 1 0) (byte_is b 2 1)))

-- The formats behind GIF, and those behind PNG.
abbrev pub other_formats : Bytes → Parsed Size
other_formats b = do
  webp_file ← is_webp b
  let icon : Parsed Size = is_ico b >>= λ ico_file. if ico_file then ico b else fails
  if webp_file then webp b else if is_tiff b then tiff b else icon

abbrev pub later_formats : Bytes → Parsed Size
later_formats b = do
  gif_file ← is_gif b
  if gif_file then gif b else if starts_with (codes "BM") b then bmp b else other_formats b

unfoldable pub dimensions : Bytes → Parsed Size
dimensions b = do
  jpeg_file ← is_jpeg b
  if jpeg_file then jpeg b else if is_png b then png b else later_formats b
