-- ===== src/Utils/Image/Safety/Formats.antt =====
-- The readers of JPEG, PNG, GIF, BMP, WebP and ICO in src/utils/image_dimensions.rs.
use plain_rs.Common.{
  ℕ, zero, suc, ◌+◌, ◌-◌, ◌≤◌, not, ◌||◌, Bytes, codes, length, ltb, leb, ◌==◌, arith, ltb→lt,
  le→ltb_false, ltb_false→le, str_eq,
}
use plain_rs.Common.Parsed.{
  Parsed, panics, spins, fails, gives, Holds, Holds-bind, slice, slice-Safe, index, Safe, Safe-bind,
  Holds-if, index-Safe,
}
use plain_rs.Utils.Image.{
  le_u16, be_u16, le_u32, be_u32, skip_fill, is_sof, sof, jpeg_loop, png, gif, bmp, vp8, vp8l, vp8x,
  webp, ico,
}
use plain_rs.Utils.Image.Safety.Reads.{le_u16-Safe, be_u16-Safe, le_u32-Safe, be_u32-Safe}

module _ (b : Bytes) where
  further : (i : ℕ) (p : Parsed ℕ) → Holds (λ j. i + 1 ≤ j) p → Holds (λ j. i ≤ j) p
  further i panics h = h
  further i spins h = h
  further i fails h = h
  further i (gives j) h = omega arith

  -- The offset behind the fill bytes is no smaller.
  pub skip_fill-Holds : (fuel i : ℕ) → length b ≤ i + fuel → Holds (λ j. i ≤ j) (skip_fill fuel b i)
  unfolding skip_fill
  skip_fill-Holds zero i h = rw (le→ltb_false i (length b) (omega arith)) (omega arith)
  skip_fill-Holds (suc fuel) i h =
      Holds-if _ (ltb i (length b)) _ _
        (λ l. Safe-bind _ (index b i) _ (index-Safe b i (ltb→lt i (length b) l)) λ x.
          Holds-if _ (x == 0xFF) _ _ (λ e. further i _ (skip_fill-Holds fuel (i + 1) (omega arith)))
            (λ e. omega arith))
        (λ l. omega arith)

  pub sof-Safe : (i : ℕ) → Safe (sof b i)
  unfolding sof
  sof-Safe i =
      Holds-if _ (ltb (length b) (i + 7)) _ _ (λ l. tt)
        λ l.
          let fits = ltb_false→le (length b) (i + 7) l in
          Safe-bind _ (be_u16 b (i + 3)) _ (be_u16-Safe b (i + 3) (omega arith))
            λ h. Safe-bind _ (be_u16 b (i + 5)) _ (be_u16-Safe b (i + 5) (omega arith)) λ w. tt

  pub jpeg_loop-Safe : (fuel i : ℕ) → length b ≤ i + fuel → Safe (jpeg_loop fuel b i)
  unfolding jpeg_loop
  jpeg_loop-Safe zero i h = rw (le→ltb_false (i + 1) (length b) (omega arith)) tt
  jpeg_loop-Safe (suc fuel) i h =
      Holds-if _ (ltb (i + 1) (length b)) _ _
        (λ l.
          let inside = ltb→lt (i + 1) (length b) l in
          Safe-bind _ (index b i) _ (index-Safe b i (omega arith)) λ x.
            Holds-if _ (x == 0xFF) _ _
              (λ e.
                Holds-bind _ _ (skip_fill (length b) b i) _
                  (skip_fill-Holds (length b) i (omega arith))
                  λ j ahead.
                    Holds-if _ (leb (length b) j) _ _ (λ o. tt)
                      λ o. Safe-bind _ (index b j) _ (index-Safe b j (ground arith)) λ m.
                        Holds-if _ (is_sof m) _ _ (λ s. sof-Safe (j + 1))
                          λ s.
                            Holds-if _ (m == 0xDA || m == 0xD9) _ _ (λ s. tt)
                              λ s.
                                Holds-if _ (ltb (length b) (j + 1 + 2)) _ _ (λ s. tt)
                                  λ s.
                                    Safe-bind _ (be_u16 b (j + 1)) _
                                      (be_u16-Safe b (j + 1)
                                        (ltb_false→le (length b) (j + 1 + 2) s))
                                      λ seg.
                                        Holds-if _ (ltb seg 2) _ _ (λ t. tt)
                                          λ t.
                                            jpeg_loop-Safe fuel (j + 1 + (2 + (seg - 2)))
                                              (omega arith))
              (λ e. jpeg_loop-Safe fuel (i + 1) (omega arith)))
        (λ l. tt)

  pub png-Safe : Safe (png b)
  unfolding png
  png-Safe =
      Holds-if _ (ltb (length b) 24) _ _ (λ l. tt)
        λ l.
          let fits = ltb_false→le (length b) 24 l in
          Safe-bind _ (slice b 12 4) _ (slice-Safe b 12 4 (omega arith)) λ chunk.
            Holds-if _ (not (str_eq chunk (codes "IHDR"))) _ _ (λ e. tt)
              λ e.
                Safe-bind _ (be_u32 b 16) _ (be_u32-Safe b 16 (omega arith))
                  λ w. Safe-bind _ (be_u32 b 20) _ (be_u32-Safe b 20 (omega arith)) λ h. tt

  pub gif-Safe : Safe (gif b)
  unfolding gif
  gif-Safe =
      Holds-if _ (ltb (length b) 10) _ _ (λ l. tt)
        λ l.
          let fits = ltb_false→le (length b) 10 l in
          Safe-bind _ (le_u16 b 6) _ (le_u16-Safe b 6 (omega arith))
            λ w. Safe-bind _ (le_u16 b 8) _ (le_u16-Safe b 8 (omega arith)) λ h. tt

  pub bmp-Safe : Safe (bmp b)
  unfolding bmp
  bmp-Safe =
      Holds-if _ (ltb (length b) 26) _ _ (λ l. tt)
        λ l.
          let fits = ltb_false→le (length b) 26 l in
          Safe-bind _ (le_u32 b 18) _ (le_u32-Safe b 18 (omega arith))
            λ w. Safe-bind _ (le_u32 b 22) _ (le_u32-Safe b 22 (omega arith)) λ h. tt

  pub vp8-Safe : Safe (vp8 b)
  unfolding vp8
  vp8-Safe =
      Holds-if _ (ltb (length b) 30) _ _ (λ l. tt)
        λ l.
          let fits = ltb_false→le (length b) 30 l in
          Safe-bind _ (le_u16 b 26) _ (le_u16-Safe b 26 (omega arith))
            λ w. Safe-bind _ (le_u16 b 28) _ (le_u16-Safe b 28 (omega arith)) λ h. tt

  pub vp8l-Safe : Safe (vp8l b)
  unfolding vp8l
  vp8l-Safe =
      Holds-if _ (ltb (length b) 21) _ _ (λ l. tt)
        λ l.
          let fits = ltb_false→le (length b) 21 l in
          Safe-bind _ (index b 17) _ (index-Safe b 17 (omega arith)) λ a.
            Safe-bind _ (index b 18) _ (index-Safe b 18 (omega arith)) λ c.
              Safe-bind _ (index b 19) _ (index-Safe b 19 (omega arith))
                λ d. Safe-bind _ (index b 20) _ (index-Safe b 20 (omega arith)) λ e. tt

  pub vp8x-Safe : Safe (vp8x b)
  unfolding vp8x
  vp8x-Safe =
      Holds-if _ (ltb (length b) 30) _ _ (λ l. tt)
        λ l.
          let fits = ltb_false→le (length b) 30 l in
          Safe-bind _ (index b 24) _ (index-Safe b 24 (omega arith)) λ a.
            Safe-bind _ (index b 25) _ (index-Safe b 25 (omega arith)) λ c.
              Safe-bind _ (index b 26) _ (index-Safe b 26 (omega arith)) λ d.
                Safe-bind _ (index b 27) _ (index-Safe b 27 (omega arith)) λ e.
                  Safe-bind _ (index b 28) _ (index-Safe b 28 (omega arith))
                    λ f. Safe-bind _ (index b 29) _ (index-Safe b 29 (omega arith)) λ g. tt

  pub webp-Safe : Safe (webp b)
  unfolding webp
  webp-Safe =
      Holds-if _ (ltb (length b) 16) _ _ (λ l. tt)
        λ l.
          let fits = ltb_false→le (length b) 16 l in
          Safe-bind _ (slice b 12 4) _ (slice-Safe b 12 4 fits) λ chunk.
            Holds-if _ (str_eq chunk (codes "VP8 ")) _ _ (λ e. vp8-Safe)
              λ e.
                Holds-if _ (str_eq chunk (codes "VP8L")) _ _ (λ e. vp8l-Safe)
                  λ e. Holds-if _ (str_eq chunk (codes "VP8X")) _ _ (λ e. vp8x-Safe) (λ e. tt)

  pub ico-Safe : 8 ≤ length b → Safe (ico b)
  unfolding ico
  ico-Safe fits = Safe-bind _ (le_u16 b 4) _ (le_u16-Safe b 4 (omega arith)) λ count.
      Holds-if _ (count == 0) _ _ (λ e. tt)
        λ e.
          Safe-bind _ (index b 6) _ (index-Safe b 6 (omega arith))
            λ w. Safe-bind _ (index b 7) _ (index-Safe b 7 (omega arith)) λ h. tt
