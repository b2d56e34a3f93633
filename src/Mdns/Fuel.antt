-- ===== src/Mdns/Fuel.antt =====
-- The rounds of the loop of `read_name` in src/mdns/packet_codec.rs.
use plain_rs.Common.{
  ℕ, zero, suc, ◌+◌, ◌≤◌, ◌≡◌, ◌≢◌, refl, sym, ◌∙◌, List, [], ◌∷◌, ◌++◌, Bytes, length, arith, ltb,
  ◌==◌, bit_and, le→ltb_false,
}
use plain_rs.Utils.Utf8.{from_utf8_lossy}
use plain_rs.Common.Parsed.{
  Parsed, spins, fails, Holds, Holds-spins, index, slice, if_ext, bind_ext,
}
use plain_rs.Mdns.Codec.{name_loop}
use plain_rs.Mdns.Safety.{Inside, name_loop-Inside}

past_end :
    (pointed : ℕ → Parsed (Bytes × ℕ)) (packet : Bytes) (fuel : ℕ) (labels : List Bytes)
    (offset : ℕ)
    → length packet ≤ offset
    → name_loop pointed packet fuel labels offset ≡ fails
unfolding name_loop
past_end pointed packet zero labels offset h = rw (le→ltb_false offset (length packet) h) refl
past_end pointed packet (suc fuel) labels offset h = rw (le→ltb_false offset (length packet) h) refl

same :
    (pointed : ℕ → Parsed (Bytes × ℕ)) (packet : Bytes) (fuel more : ℕ) (labels : List Bytes)
    (offset : ℕ)
    → length packet ≤ offset + fuel
    → length packet ≤ offset + more
    → name_loop pointed packet fuel labels offset ≡ name_loop pointed packet more labels offset
unfolding name_loop
same pointed packet zero more labels offset h k =
    past_end pointed packet zero labels offset (omega arith)
    ∙ sym (past_end pointed packet more labels offset (omega arith))
same pointed packet (suc fuel) zero labels offset h k =
    past_end pointed packet (suc fuel) labels offset (omega arith)
    ∙ sym (past_end pointed packet zero labels offset (omega arith))
same pointed packet (suc fuel) (suc more) labels offset h k =
    if_ext (ltb offset (length packet)) _ _ _ _
      (λ l. bind_ext (index packet offset) _ _ λ len e.
        if_ext (len == 0) _ _ _ _ (λ c. refl)
          λ c.
            if_ext (bit_and len 0xC0 == 0xC0) _ _ _ _ (λ c. refl)
              λ c.
                if_ext (ltb (length packet) (offset + 1 + len)) _ _ _ _ (λ c. refl)
                  λ c. bind_ext (slice packet (offset + 1) len) _ _ λ text s.
                    same pointed packet fuel more (labels ++ (from_utf8_lossy text ∷ []))
                      (offset + 1 + len) (omega arith) (omega arith))
      (λ l. refl)

-- The loop ends by itself: from any offset, a number of rounds that covers the bytes left is not used
-- up, and any two such numbers come to the same result, if the calls for pointers come to an end within
-- the packet.
pub name_loop_enough :
    (packet : Bytes) (pointed : ℕ → Parsed (Bytes × ℕ))
    → ((p : ℕ) → Holds (λ (r : Bytes × ℕ). r.1 ≤ length packet) (pointed p))
    → (fuel more : ℕ) (labels : List Bytes) (offset : ℕ) → length packet ≤ offset + fuel
    → length packet ≤ offset + more
    → (name_loop pointed packet fuel labels offset ≢ spins)
      × (name_loop pointed packet fuel labels offset ≡ name_loop pointed packet more labels offset)
name_loop_enough packet pointed safe fuel more labels offset h k = (
  Holds-spins (Inside packet) (name_loop pointed packet fuel labels offset)
      (name_loop-Inside packet pointed safe fuel labels offset h),
  same pointed packet fuel more labels offset h k,
)
