-- ===== src/Utils/Image/Safety.antt =====
-- The bounds of the reads of src/utils/image_dimensions.rs, on any bytes.
mod Reads
pub mod Formats
mod Entries
use plain_rs.Common.{
  ℕ, zero, suc, ◌+◌, ◌-◌, ◌≤◌, ◌<◌, Bool-cases, inl, inr, leb→le, ◌⊎◌, Bool, true, false, not, ◌&&◌,
  ◌||◌, Bytes, codes, length, ltb, leb, ◌==◌, if◌then◌else◌, arith, ltb→lt, ltb_false→le, take,
  drop, str_eq, starts_with, Option, none, some,
}
use plain_rs.Common.Int.{ℤ}
use plain_rs.Common.Parsed.{
  Parsed, panics, fails, gives, ◌>>=◌, and_then, or_else, slice, slice-Safe, index, Safe, Safe-bind,
  Holds-if, index-Safe,
}
use plain_rs.Utils.Image.{
  Size, le_u16, be_u16, le_u32, be_u32, skip_fill, is_sof, sof, jpeg_loop, png, gif, bmp, vp8, vp8l,
  vp8x, webp, ico,
}
use plain_rs.Utils.Image.Tiff.{
  u16_at, u32_at, tiff_read_u16, tiff_read_u32, header_with, parse_tiff_header, tiff_ifd_value_i32,
  keep, both, found, entries, tiff, dimensions, is_jpeg, is_png, is_gif, byte_is, slice_is, longer,
  is_webp, is_tiff, is_ico,
}
use plain_rs.Utils.Image.Safety.Formats.{
  jpeg_loop-Safe, png-Safe, gif-Safe, bmp-Safe, webp-Safe, ico-Safe,
}
use plain_rs.Utils.Image.Safety.Entries.{tiff-Safe}

module _ (b : Bytes) where
  longer-Holds :
      (n : ℕ) (m : Parsed Bool) → ((n ≤ length b) → Safe m) → Safe (and_then (longer b n) m)
  longer-Holds n m h = Holds-if _ (leb n (length b)) _ _ (λ e. h (leb→le n (length b) e)) (λ e. tt)

  and_then-Safe : (p q : Parsed Bool) → Safe p → Safe q → Safe (and_then p q)
  and_then-Safe p q hp hq = Safe-bind _ p _ hp λ c. Holds-if _ c _ _ (λ e. hq) (λ e. tt)

  or_else-Safe : (p q : Parsed Bool) → Safe p → Safe q → Safe (or_else p q)
  or_else-Safe p q hp hq = Safe-bind _ p _ hp λ c. Holds-if _ c _ _ (λ e. tt) (λ e. hq)

  byte_is-Safe : (i v : ℕ) → i < length b → Safe (byte_is b i v)
  byte_is-Safe i v h = Safe-bind _ (index b i) _ (index-Safe b i h) λ x. tt

  slice_is-Safe :
      (start size : ℕ) (v : Bytes) → start + size ≤ length b → Safe (slice_is b start size v)
  slice_is-Safe start size v h =
      Safe-bind _ (slice b start size) _ (slice-Safe b start size h) λ x. tt

  is_jpeg-Safe : Safe (is_jpeg b)
  is_jpeg-Safe =
      longer-Holds 2 _ λ h.
        and_then-Safe _ _ (byte_is-Safe 0 0xFF (omega arith)) (byte_is-Safe 1 0xD8 (omega arith))

  is_gif-Safe : Safe (is_gif b)
  is_gif-Safe =
      longer-Holds 6 _ λ h.
        or_else-Safe _ _ (slice_is-Safe 0 6 _ (omega arith)) (slice_is-Safe 0 6 _ (omega arith))

  is_webp-Safe : Safe (is_webp b)
  is_webp-Safe =
      longer-Holds 12 _ λ h.
        and_then-Safe _ _ (slice_is-Safe 0 4 _ (omega arith)) (slice_is-Safe 8 4 _ (omega arith))

  -- An ICO file that is recognised has the eight bytes that its reader takes unchecked.
  ico_read-Safe : Safe (is_ico b >>= λ ico_file. if ico_file then ico b else fails)
  ico_read-Safe = elim (Bool-cases (leb 8 (length b))) [
    | inl e ↦
        let h = leb→le 8 (length b) e in
        rw e (
          Safe-bind _ (and_then (byte_is b 0 0) (and_then (byte_is b 1 0) (byte_is b 2 1))) _
            (and_then-Safe _ _ (byte_is-Safe 0 0 (omega arith))
              (and_then-Safe _ _ (byte_is-Safe 1 0 (omega arith)) (byte_is-Safe 2 1 (omega arith))))
            λ c. Holds-if _ c _ _ (λ e. ico-Safe b h) (λ e. tt))
    | inr e ↦ rw e tt
  ]

  -- No bytes make the readers of image sizes index or slice out of bounds or go on without end, whichever
  -- format they claim to be.
  pub dimensions-Safe : Safe (dimensions b)
  unfolding dimensions
  dimensions-Safe = Safe-bind _ (is_jpeg b) _ is_jpeg-Safe λ jpeg_file.
      Holds-if _ jpeg_file _ _ (λ e. jpeg_loop-Safe b (length b) 2 (omega arith))
        λ e.
          Holds-if _ (is_png b) _ _ (λ e. png-Safe b)
            λ e. Safe-bind _ (is_gif b) _ is_gif-Safe λ gif_file.
              Holds-if _ gif_file _ _ (λ e. gif-Safe b)
                λ e.
                  Holds-if _ (starts_with (codes "BM") b) _ _ (λ e. bmp-Safe b)
                    λ e. Safe-bind _ (is_webp b) _ is_webp-Safe λ webp_file.
                      Holds-if _ webp_file _ _ (λ e. webp-Safe b)
                        λ e. Holds-if _ (is_tiff b) _ _ (λ e. tiff-Safe b) (λ e. ico_read-Safe)
