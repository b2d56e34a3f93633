-- ===== src/Utils/Image/Fuel.antt =====
-- The rounds of the two loops of `jpeg` in src/utils/image_dimensions.rs.
use plain_rs.Common.{
  ℕ, zero, suc, ◌+◌, ◌-◌, ◌≤◌, ◌≡◌, ◌≢◌, ◌∙◌, refl, sym, subst, ◌||◌, Bytes, length, ltb, leb, ◌==◌,
  arith, le→ltb_false,
}
use plain_rs.Common.Parsed.{spins, fails, gives, index, Holds, Holds-spins, if_ext, bind_ext}
use plain_rs.Utils.Image.Safety.Formats.{skip_fill-Holds, jpeg_loop-Safe}
use plain_rs.Utils.Image.{be_u16, skip_fill, is_sof, jpeg_loop}

past_end : (b : Bytes) (fuel i : ℕ) → length b ≤ i → jpeg_loop fuel b i ≡ fails
unfolding jpeg_loop
past_end b zero i h = rw (le→ltb_false (i + 1) (length b) (omega arith)) refl
past_end b (suc fuel) i h = rw (le→ltb_false (i + 1) (length b) (omega arith)) refl

jpeg_same :
    (b : Bytes) (fuel more i : ℕ)
    → length b ≤ i + fuel
    → length b ≤ i + more
    → jpeg_loop fuel b i ≡ jpeg_loop more b i
unfolding jpeg_loop
jpeg_same b zero more i h k =
    past_end b zero i (omega arith) ∙ sym (past_end b more i (omega arith))
jpeg_same b (suc fuel) zero i h k =
    past_end b (suc fuel) i (omega arith) ∙ sym (past_end b zero i (omega arith))
jpeg_same b (suc fuel) (suc more) i h k =
    if_ext (ltb (i + 1) (length b)) _ _ _ _
      (λ l. bind_ext (index b i) _ _ λ x ex.
        if_ext (x == 0xFF) _ _ _ _
          (λ e. bind_ext (skip_fill (length b) b i) _ _ λ j ej.
            let ahead : i ≤ j =
              subst (Holds (λ j. i ≤ j)) ej (skip_fill-Holds b (length b) i (omega arith)) in
            if_ext (leb (length b) j) _ _ _ _ (λ c. refl)
              λ c. bind_ext (index b j) _ _ λ m em.
                if_ext (is_sof m) _ _ _ _ (λ c. refl)
                  λ c.
                    if_ext (m == 0xDA || m == 0xD9) _ _ _ _ (λ c. refl)
                      λ c.
                        if_ext (ltb (length b) (j + 1 + 2)) _ _ _ _ (λ c. refl)
                          λ c. bind_ext (be_u16 b (j + 1)) _ _ λ seg es.
                            if_ext (ltb seg 2) _ _ _ _ (λ c. refl)
                              λ c.
                                jpeg_same b fuel more (j + 1 + (2 + (seg - 2))) (omega arith)
                                  (omega arith))
          (λ e. jpeg_same b fuel more (i + 1) (omega arith) (omega arith)))
      (λ l. refl)

fill_past : (b : Bytes) (fuel i : ℕ) → length b ≤ i → skip_fill fuel b i ≡ gives i
unfolding skip_fill
fill_past b zero i h = rw (le→ltb_false i (length b) h) refl
fill_past b (suc fuel) i h = rw (le→ltb_false i (length b) h) refl

fill_same :
    (b : Bytes) (fuel more i : ℕ)
    → length b ≤ i + fuel
    → length b ≤ i + more
    → skip_fill fuel b i ≡ skip_fill more b i
unfolding skip_fill
fill_same b zero more i h k =
    fill_past b zero i (omega arith) ∙ sym (fill_past b more i (omega arith))
fill_same b (suc fuel) zero i h k =
    fill_past b (suc fuel) i (omega arith) ∙ sym (fill_past b zero i (omega arith))
fill_same b (suc fuel) (suc more) i h k =
    if_ext (ltb i (length b)) _ _ _ _
      (λ l. bind_ext (index b i) _ _ λ x ex.
        if_ext (x == 0xFF) _ _ _ _ (λ e. fill_same b fuel more (i + 1) (omega arith) (omega arith))
          (λ e. refl))
      (λ l. refl)

-- Both loops of the JPEG reader end by themselves: from any offset, a number of rounds that covers the
-- bytes left is not used up, and any two such numbers come to the same result.
pub jpeg_loop_enough :
    (b : Bytes) (fuel more i : ℕ)
    → length b ≤ i + fuel
    → length b ≤ i + more
    → (jpeg_loop fuel b i ≢ spins)
      × (jpeg_loop fuel b i ≡ jpeg_loop more b i)
      × (skip_fill fuel b i ≢ spins)
      × (skip_fill fuel b i ≡ skip_fill more b i)
jpeg_loop_enough b fuel more i h k = (
  Holds-spins _ (jpeg_loop fuel b i) (jpeg_loop-Safe b fuel i h),
  jpeg_same b fuel more i h k,
  Holds-spins _ (skip_fill fuel b i) (skip_fill-Holds b fuel i h),
  fill_same b fuel more i h k,
)
