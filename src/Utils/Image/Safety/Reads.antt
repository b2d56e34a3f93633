-- ===== src/Utils/Image/Safety/Reads.antt =====
-- The words that src/utils/image_dimensions.rs reads from a slice.
use plain_rs.Common.{ℕ, ◌+◌, ◌≤◌, Bytes, length, arith}
use plain_rs.Common.Parsed.{index, Safe, Safe-bind, index-Safe}
use plain_rs.Utils.Image.{le_u16, be_u16, le_u32, be_u32}

module _ (b : Bytes) where
  pub le_u16-Safe : (i : ℕ) → i + 2 ≤ length b → Safe (le_u16 b i)
  unfolding le_u16
  le_u16-Safe i h =
      Safe-bind _ (index b i) _ (index-Safe b i (omega arith))
        λ l. Safe-bind _ (index b (i + 1)) _ (index-Safe b (i + 1) (omega arith)) λ u. tt

  pub be_u16-Safe : (i : ℕ) → i + 2 ≤ length b → Safe (be_u16 b i)
  unfolding be_u16
  be_u16-Safe i h =
      Safe-bind _ (index b i) _ (index-Safe b i (omega arith))
        λ l. Safe-bind _ (index b (i + 1)) _ (index-Safe b (i + 1) (omega arith)) λ u. tt

  pub le_u32-Safe : (i : ℕ) → i + 4 ≤ length b → Safe (le_u32 b i)
  unfolding le_u32
  le_u32-Safe i h =
      Safe-bind _ (le_u16 b i) _ (le_u16-Safe i (omega arith))
        λ l. Safe-bind _ (le_u16 b (i + 2)) _ (le_u16-Safe (i + 2) (omega arith)) λ u. tt

  pub be_u32-Safe : (i : ℕ) → i + 4 ≤ length b → Safe (be_u32 b i)
  unfolding be_u32
  be_u32-Safe i h =
      Safe-bind _ (be_u16 b i) _ (be_u16-Safe i (omega arith))
        λ l. Safe-bind _ (be_u16 b (i + 2)) _ (be_u16-Safe (i + 2) (omega arith)) λ u. tt
