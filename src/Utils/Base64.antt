-- ===== src/Utils/Base64.antt =====
-- src/utils/base64.rs: standard base64, written and read.
pub mod RoundTrip
use Prim.Native.Nat.{bit_and, bit_or}
use plain_rs.Common.{
  ℕ, ◌+◌, ◌-◌, ◌*◌, ◌/◌, ◌%◌, Bool, not, List, [], ◌∷◌, Option, none, some, Bytes, codes, filter,
  get_elem?, map, ◌==◌, within, if◌then◌else◌,
}

abbrev pub pad : ℕ
pad = 61

-- `T[i]`: every index that the encoder takes lies below 64.
unfoldable pub alphabet : ℕ → ℕ
alphabet i =
    elim (get_elem? (codes "ABCDEFGHIJKLMNOPQRSTUVWXYZabcdefghijklmnopqrstuvwxyz0123456789+/") i) [
      | none ↦ 0
      | some c ↦ c
    ]

-- The bytes in threes.
unfoldable pub base64_encode : Bytes → Bytes
unfolding alphabet
base64_encode [] = []
base64_encode (b0 ∷ []) =
    alphabet (b0 / 4) ∷ alphabet (bit_or (bit_and b0 3 * 16) (0 / 16)) ∷ pad ∷ pad ∷ []
base64_encode (b0 ∷ b1 ∷ []) =
    alphabet (b0 / 4)
    ∷ alphabet (bit_or (bit_and b0 3 * 16) (b1 / 16))
    ∷ alphabet (bit_or (bit_and b1 0xf * 4) (0 / 64))
    ∷ pad
    ∷ []
base64_encode (b0 ∷ b1 ∷ b2 ∷ rest) =
    alphabet (b0 / 4)
    ∷ alphabet (bit_or (bit_and b0 3 * 16) (b1 / 16))
    ∷ alphabet (bit_or (bit_and b1 0xf * 4) (b2 / 64))
    ∷ alphabet (bit_and b2 0x3f)
    ∷ base64_encode rest

unfoldable pub val : ℕ → ℕ
val c =
    if within 65 90 c
    then c - 65
    else if within 97 122 c
    then c - 97 + 26
    else if within 48 57 c
    then c - 48 + 52
    else if c == 43
    then 62
    else if c == 47
    then 63
    else 0

-- The values in fours; the shifts to the left are those of `u8`.
unfoldable pub decode_chunks : Bytes → Bytes
decode_chunks [] = []
decode_chunks (v0 ∷ []) = bit_or (v0 * 4 % 256) (0 / 16) ∷ []
decode_chunks (v0 ∷ v1 ∷ []) = bit_or (v0 * 4 % 256) (v1 / 16) ∷ []
decode_chunks (v0 ∷ v1 ∷ v2 ∷ []) =
    bit_or (v0 * 4 % 256) (v1 / 16) ∷ bit_or (bit_and v1 0xf * 16 % 256) (v2 / 4) ∷ []
decode_chunks (v0 ∷ v1 ∷ v2 ∷ v3 ∷ rest) =
    bit_or (v0 * 4 % 256) (v1 / 16)
    ∷ bit_or (bit_and v1 0xf * 16 % 256) (v2 / 4)
    ∷ bit_or (bit_and v2 3 * 64 % 256) v3
    ∷ decode_chunks rest

unfoldable pub base64_decode : Bytes → Bytes
base64_decode s = decode_chunks (map val (filter (λ c. not (c == pad)) s))
