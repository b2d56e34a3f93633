-- ===== src/Utils/Query/RoundTrip.antt =====
-- `percent_decode` against `url_encode`.
use plain_rs.Common.{
  ℕ, ◌+◌, ◌*◌, ◌/◌, ◌%◌, ◌<◌, ◌≡◌, refl, ap, ◌∙◌, false, [], ◌∷◌, ◌++◌, arith, ◌==◌, if◌then◌else◌,
  Bytes, All, some, Bool-cases, inl, inr, Lacks,
}
use plain_rs.Utils.Utf8.{from_utf8_lossy, IsUtf8, from_utf8_lossy_id, IsUtf8-bytes}
use plain_rs.Utils.Query.{
  hex_nibble, decode_from, percent_decode, is_unreserved, upper_digit, url_encode,
}

hex_nibble-upper_digit : (n : ℕ) → n < 16 → hex_nibble (upper_digit n) ≡ some n
unfolding hex_nibble upper_digit
hex_nibble-upper_digit n h = ground arith

-- One plain byte, and one triplet, in front of any rest.
decode_from_plain :
    (b : ℕ) (rest : Bytes)
    → (b == b'%') ≡ false
    → (b == b'+') ≡ false
    → decode_from 0 (b ∷ rest) ≡ b ∷ decode_from 0 rest
unfolding decode_from
decode_from_plain b [] h k = ground arith
decode_from_plain b (x ∷ []) h k = ground arith
decode_from_plain b (x ∷ y ∷ rest) h k = ground arith

decode_from_triplet :
    (x y h l : ℕ) (rest : Bytes)
    → hex_nibble x ≡ some h
    → hex_nibble y ≡ some l
    → decode_from 0 (b'%' ∷ x ∷ y ∷ rest) ≡ (h * 16 + l) ∷ decode_from 0 rest
unfolding decode_from
decode_from_triplet x y h l rest p q = ground arith

encoded_byte :
    (b : ℕ) (rest : Bytes)
    → b < 256
    → decode_from 0 (
        (if is_unreserved b
          then b ∷ []
          else b'%' ∷ upper_digit (b / 16) ∷ upper_digit (b % 16) ∷ [])
        ++ rest)
      ≡ b ∷ decode_from 0 rest
unfolding is_unreserved
encoded_byte b rest h = elim (Bool-cases (is_unreserved b)) [
  | inl u ↦ rw u (decode_from_plain b rest (ground arith) (ground arith))
  | inr u ↦ rw u (
      decode_from_triplet _ _ (b / 16) (b % 16) rest (hex_nibble-upper_digit (b / 16) (omega arith))
        (hex_nibble-upper_digit (b % 16) (omega arith))
      ∙ ap (λ v. v ∷ decode_from 0 rest) (omega arith))
]

decode_from-url_encode : (s : Bytes) → All (λ b. b < 256) s → decode_from 0 (url_encode s) ≡ s
unfolding url_encode
decode_from-url_encode [] h = unfold decode_from in refl
decode_from-url_encode (b ∷ bs) (h, hs) =
    encoded_byte b (url_encode bs) h ∙ ap (◌∷◌ b) (decode_from-url_encode bs hs)

-- Decoding what `url_encode` wrote gives the string back, whatever UTF-8 text it holds.
pub percent_decode-url_encode : {s : Bytes} → IsUtf8 s → percent_decode (url_encode s) ≡ s
percent_decode-url_encode {s} h =
    unfold percent_decode in
    ap from_utf8_lossy (decode_from-url_encode s (IsUtf8-bytes h)) ∙ from_utf8_lossy_id h

-- What `url_encode` writes holds no separator of a query string.
encoded_digit :
    (n : ℕ) → n < 16 → ((upper_digit n == b'&') ≡ false) × ((upper_digit n == b'=') ≡ false)
unfolding upper_digit
encoded_digit n h = ground arith

pub url_encode-Lacks :
    (s : Bytes) → All (λ b. b < 256) s → Lacks b'&' (url_encode s) × Lacks b'=' (url_encode s)
unfolding url_encode
url_encode-Lacks [] h = (tt, tt)
url_encode-Lacks (b ∷ bs) (h, hs) = ground (
  arith,
  url_encode-Lacks bs hs,
  encoded_digit (b / 16) (omega arith),
  encoded_digit (b % 16) (omega arith),
)
