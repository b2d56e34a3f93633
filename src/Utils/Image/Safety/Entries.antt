-- ===== src/Utils/Image/Safety/Entries.antt =====
-- The reader of TIFF in src/utils/image_dimensions.rs.
use plain_rs.Common.{
  ℕ, zero, suc, ◌+◌, ◌≤◌, Bool, true, false, ◌&&◌, Bytes, codes, length, ltb, ◌==◌, if◌then◌else◌,
  arith, ltb_false→le, str_eq, Option, none, some,
}
use plain_rs.Common.Int.{ℤ}
use plain_rs.Common.Parsed.{
  Parsed, panics, spins, slice, slice-Safe, fails, gives, Safe, Safe-bind, Holds-if,
}
use plain_rs.Utils.Image.{Size}
use plain_rs.Utils.Image.Tiff.{
  u16_at, u32_at, tiff_read_u16, tiff_read_u32, header_with, parse_tiff_header, tiff_ifd_value_i32,
  keep, both, found, entries, tiff,
}
use plain_rs.Utils.Image.Safety.Reads.{le_u16-Safe, be_u16-Safe, le_u32-Safe, be_u32-Safe}

module _ (b : Bytes) where
  pub u16_at-Safe : (le : Bool) (i : ℕ) → i + 2 ≤ length b → Safe (u16_at le b i)
  unfolding u16_at
  u16_at-Safe true i h = le_u16-Safe b i h
  u16_at-Safe false i h = be_u16-Safe b i h

  pub u32_at-Safe : (le : Bool) (i : ℕ) → i + 4 ≤ length b → Safe (u32_at le b i)
  unfolding u32_at
  u32_at-Safe true i h = le_u32-Safe b i h
  u32_at-Safe false i h = be_u32-Safe b i h

  pub tiff_read_u16-Safe : (off : ℕ) (le : Bool) → Safe (tiff_read_u16 b off le)
  unfolding tiff_read_u16
  tiff_read_u16-Safe off le =
      Holds-if _ (ltb (length b) (off + 2)) _ _ (λ l. tt)
        λ l. u16_at-Safe le off (ltb_false→le (length b) (off + 2) l)

  pub tiff_read_u32-Safe : (off : ℕ) (le : Bool) → Safe (tiff_read_u32 b off le)
  unfolding tiff_read_u32
  tiff_read_u32-Safe off le =
      Holds-if _ (ltb (length b) (off + 4)) _ _ (λ l. tt)
        λ l. u32_at-Safe le off (ltb_false→le (length b) (off + 4) l)

  pub header_with-Safe : (le : Bool) → 8 ≤ length b → Safe (header_with le b)
  unfolding header_with
  header_with-Safe le h = Safe-bind _ (u16_at le b 2) _ (u16_at-Safe le 2 (omega arith)) λ magic.
      Holds-if _ (magic == 0x002A) _ _
        (λ m. Safe-bind _ (u32_at le b 4) _ (u32_at-Safe le 4 (omega arith)) λ off. tt) (λ m. tt)

  pub parse_tiff_header-Safe : Safe (parse_tiff_header b)
  unfolding parse_tiff_header
  parse_tiff_header-Safe =
      Holds-if _ (ltb (length b) 8) _ _ (λ l. tt)
        λ l.
          let fits = ltb_false→le (length b) 8 l in
          Safe-bind _ (slice b 0 2) _ (slice-Safe b 0 2 (omega arith)) λ order.
            Holds-if _ (str_eq order (codes "II")) _ _ (λ e. header_with-Safe true fits)
              λ e.
                Holds-if _ (str_eq order (codes "MM")) _ _ (λ e. header_with-Safe false fits)
                  (λ e. tt)

  pub tiff_ifd_value_i32-Safe : (entry : ℕ) (le : Bool) → Safe (tiff_ifd_value_i32 b entry le)
  unfolding tiff_ifd_value_i32
  tiff_ifd_value_i32-Safe entry le =
      Safe-bind _ (tiff_read_u16 b (entry + 2) le) _ (tiff_read_u16-Safe (entry + 2) le) λ typ.
        Holds-if _ (typ == 3) _ _
          (λ e.
            Safe-bind _ (tiff_read_u16 b (entry + 8) le) _ (tiff_read_u16-Safe (entry + 8) le)
              λ v. tt)
          λ e.
            Holds-if _ (typ == 4) _ _
              (λ e.
                Safe-bind _ (tiff_read_u32 b (entry + 8) le) _ (tiff_read_u32-Safe (entry + 8) le)
                  λ v. tt)
              (λ e. tt)

  pub keep-Safe : {A : Type 0} (p : Parsed A) → Safe p → Safe (keep p)
  keep-Safe panics h = h
  keep-Safe spins h = h
  keep-Safe fails h = tt
  keep-Safe (gives a) h = tt

  pub both-Safe : (w h : Option ℤ) → Safe (both w h)
  both-Safe none h = tt
  both-Safe (some w) none = tt
  both-Safe (some w) (some h) = tt

  pub stop_or :
      (w h : Option ℤ) (rest : Parsed Size)
      → Safe rest
      → Safe (if found w && found h then both w h else rest)
  stop_or w h rest safe = Holds-if _ (found w && found h) _ _ (λ e. both-Safe w h) (λ e. safe)

  pub entries-Safe :
      (count entry : ℕ) (le : Bool) (w h : Option ℤ) → Safe (entries count b entry le w h)
  unfolding entries
  entries-Safe zero entry le w h = both-Safe w h
  entries-Safe (suc count) entry le w h =
      let value : Safe (keep (tiff_ifd_value_i32 b entry le)) =
        keep-Safe (tiff_ifd_value_i32 b entry le) (tiff_ifd_value_i32-Safe entry le) in
      let next = λ (v u : Option ℤ).
        stop_or v u (entries count b (entry + 12) le v u)
          (entries-Safe count (entry + 12) le v u) in
      Holds-if _ (ltb (length b) (entry + 12)) _ _ (λ l. tt)
        λ l. Safe-bind _ (tiff_read_u16 b entry le) _ (tiff_read_u16-Safe entry le) λ tag.
          Holds-if _ (tag == 0x0100) _ _
            (λ e. Safe-bind _ (keep (tiff_ifd_value_i32 b entry le)) _ value λ v. next v h)
            λ e.
              Holds-if _ (tag == 0x0101) _ _
                (λ e. Safe-bind _ (keep (tiff_ifd_value_i32 b entry le)) _ value λ v. next w v)
                (λ e. next w h)

  pub tiff-Safe : Safe (tiff b)
  unfolding tiff
  tiff-Safe = Safe-bind _ (parse_tiff_header b) _ parse_tiff_header-Safe λ r.
      Safe-bind _ (tiff_read_u16 b r.1 r.0) _ (tiff_read_u16-Safe r.1 r.0)
        λ count. entries-Safe count (r.1 + 2) r.0 none none
