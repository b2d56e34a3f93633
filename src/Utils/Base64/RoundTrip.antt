-- ===== src/Utils/Base64/RoundTrip.antt =====
-- src/utils/base64.rs: what the encoder writes, read by the decoder.
use Prim.Native.Nat.{bit_and, bit_or}
use plain_rs.Common.{
  Lacks, false, ℕ, ◌+◌, ◌*◌, ◌/◌, ◌%◌, ◌<◌, ◌≡◌, refl, not, [], ◌∷◌, Bytes, filter, map, All, ◌==◌,
  arith, ltb, if◌then◌else◌,
}
use plain_rs.Common.Bits.{agree_below→eq, agree_below, and_0x0f}
use plain_rs.Utils.Base64.{alphabet, val, pad, base64_encode, decode_chunks, base64_decode}

-- A character of the alphabet stands for its index, and is no padding.
val-alphabet : (i : ℕ) → i < 64 → val (alphabet i) ≡ i
unfolding agree_below val alphabet
val-alphabet = agree_below→eq _ _ 64 refl

unfoldable pad_count : ℕ → ℕ
pad_count i = if alphabet i == pad then 1 else 0

alphabet_not_pad : (i : ℕ) → i < 64 → pad_count i ≡ 0
unfolding agree_below pad_count alphabet
alphabet_not_pad = agree_below→eq _ _ 64 refl

-- The values of a text, as `base64_decode` reads them.
abbrev values : Bytes → Bytes
values s = map val (filter (λ c. not (c == pad)) s)

values_cons : (i : ℕ) (s : Bytes) → i < 64 → values (alphabet i ∷ s) ≡ i ∷ values s
unfolding pad_count
values_cons i s h = ground (arith, val-alphabet i h, alphabet_not_pad i h)

values_4 :
    (i j k l : ℕ) (s : Bytes)
    → i < 64
    → j < 64
    → k < 64
    → l < 64
    → values (alphabet i ∷ alphabet j ∷ alphabet k ∷ alphabet l ∷ s) ≡ i ∷ j ∷ k ∷ l ∷ values s
values_4 i j k l s hi hj hk hl = cc (
  values_cons i (alphabet j ∷ alphabet k ∷ alphabet l ∷ s) hi,
  values_cons j (alphabet k ∷ alphabet l ∷ s) hj,
  values_cons k (alphabet l ∷ s) hk,
  values_cons l s hl,
)

and_3 : (b : ℕ) → b < 256 → bit_and b 3 ≡ b % 4
unfolding agree_below
and_3 = agree_below→eq _ _ 256 refl

and_0x3f : (b : ℕ) → b < 256 → bit_and b 0x3f ≡ b % 64
unfolding agree_below
and_0x3f = agree_below→eq _ _ 256 refl

or_4 : (n : ℕ) → n < 256 → bit_or (n / 4 * 4) (n % 4) ≡ n
unfolding agree_below
or_4 = agree_below→eq (λ n. bit_or (n / 4 * 4) (n % 4)) (λ n. n) 256 refl

or_16 : (n : ℕ) → n < 256 → bit_or (n / 16 * 16) (n % 16) ≡ n
unfolding agree_below
or_16 = agree_below→eq (λ n. bit_or (n / 16 * 16) (n % 16)) (λ n. n) 256 refl

or_64 : (n : ℕ) → n < 256 → bit_or (n / 64 * 64) (n % 64) ≡ n
unfolding agree_below
or_64 = agree_below→eq (λ n. bit_or (n / 64 * 64) (n % 64)) (λ n. n) 256 refl

-- The bits of two numbers that do not overlap add up.
pack_4 : (x y : ℕ) → x < 64 → y < 4 → bit_or (x * 4) y ≡ x * 4 + y
pack_4 x y hx hy = ground (arith, or_4 (x * 4 + y) (omega arith))

pack_16 : (x y : ℕ) → x < 16 → y < 16 → bit_or (x * 16) y ≡ x * 16 + y
pack_16 x y hx hy = ground (arith, or_16 (x * 16 + y) (omega arith))

pack_64 : (x y : ℕ) → x < 4 → y < 64 → bit_or (x * 64) y ≡ x * 64 + y
pack_64 x y hx hy = ground (arith, or_64 (x * 64 + y) (omega arith))

-- The second and the third index of three bytes.
second :
    (b0 b1 : ℕ) → b0 < 256 → b1 < 256 → bit_or (bit_and b0 3 * 16) (b1 / 16) ≡ b0 % 4 * 16 + b1 / 16
second b0 b1 h0 h1 =
    ground (arith, and_3 b0 h0, pack_16 (b0 % 4) (b1 / 16) (omega arith) (omega arith))

third :
    (b1 b2 : ℕ)
    → b1 < 256
    → b2 < 256
    → bit_or (bit_and b1 0xf * 4) (b2 / 64) ≡ b1 % 16 * 4 + b2 / 64
third b1 b2 h1 h2 =
    ground (arith, and_0x0f b1 h1, pack_4 (b1 % 16) (b2 / 64) (omega arith) (omega arith))

-- The bytes of four indices.
byte_0 : (b0 y : ℕ) → b0 < 256 → y < 16 → bit_or (b0 / 4 * 4 % 256) ((b0 % 4 * 16 + y) / 16) ≡ b0
byte_0 b0 y h0 h1 = ground (arith, or_4 b0 h0)

byte_1 :
    (x b1 z : ℕ)
    → x < 4
    → b1 < 256
    → z < 4
    → bit_or (bit_and (x * 16 + b1 / 16) 0xf * 16 % 256) ((b1 % 16 * 4 + z) / 4) ≡ b1
byte_1 x b1 z hx h1 hz = ground (
  arith,
  and_0x0f (x * 16 + b1 / 16) (omega arith),
  pack_16 (b1 / 16) (b1 % 16) (omega arith) (omega arith),
)

byte_2 :
    (y b2 : ℕ) → y < 16 → b2 < 256 → bit_or (bit_and (y * 4 + b2 / 64) 3 * 64 % 256) (b2 % 64) ≡ b2
byte_2 y b2 hy h2 = ground (
  arith,
  and_3 (y * 4 + b2 / 64) (omega arith),
  pack_64 (b2 / 64) (b2 % 64) (omega arith) (omega arith),
)

-- Reading what was written gives the bytes back, if each of them is below 256.
pub base64_decode-base64_encode :
    (bs : Bytes) → All (λ b. b < 256) bs → base64_decode (base64_encode bs) ≡ bs
unfolding base64_decode base64_encode decode_chunks
base64_decode-base64_encode [] h = refl
base64_decode-base64_encode (b0 ∷ []) (h0, h) = ground (
  arith,
  second b0 0 h0 (omega arith),
  values_cons (b0 / 4) (alphabet (b0 % 4 * 16 + 0) ∷ pad ∷ pad ∷ []) (omega arith),
  values_cons (b0 % 4 * 16 + 0) (pad ∷ pad ∷ []) (omega arith),
  byte_0 b0 0 h0 (omega arith),
)
base64_decode-base64_encode (b0 ∷ b1 ∷ []) (h0, (h1, h)) = ground (
  arith,
  second b0 b1 h0 h1,
  third b1 0 h1 (omega arith),
  values_cons (b0 / 4) (alphabet (b0 % 4 * 16 + b1 / 16) ∷ alphabet (b1 % 16 * 4 + 0) ∷ pad ∷ [])
      (omega arith),
  values_cons (b0 % 4 * 16 + b1 / 16) (alphabet (b1 % 16 * 4 + 0) ∷ pad ∷ []) (omega arith),
  values_cons (b1 % 16 * 4 + 0) (pad ∷ []) (omega arith),
  byte_0 b0 (b1 / 16) h0 (omega arith),
  byte_1 (b0 % 4) b1 0 (omega arith) h1 (omega arith),
)
base64_decode-base64_encode (b0 ∷ b1 ∷ b2 ∷ rest) (h0, (h1, (h2, h))) =
    rw
      (
        second b0 b1 h0 h1,
        third b1 b2 h1 h2,
        and_0x3f b2 h2,
        values_4 (b0 / 4) (b0 % 4 * 16 + b1 / 16) (b1 % 16 * 4 + b2 / 64) (b2 % 64)
            (base64_encode rest) (omega arith) (omega arith) (omega arith) (omega arith),
        byte_0 b0 (b1 / 16) h0 (omega arith),
        byte_1 (b0 % 4) b1 (b2 / 64) (omega arith) h1 (omega arith),
        byte_2 (b1 % 16) b2 (omega arith) h2,
        base64_decode-base64_encode rest h,
      )
      refl

unfoldable bar_count : ℕ → ℕ
bar_count i = if alphabet i == 124 then 1 else 0

alphabet_no_bar : (i : ℕ) → i < 64 → bar_count i ≡ 0
unfolding agree_below bar_count alphabet
alphabet_no_bar = agree_below→eq _ _ 64 refl

alphabet_bar : (i : ℕ) → i < 64 → (alphabet i == 124) ≡ false
unfolding bar_count
alphabet_bar i h = ground (arith, alphabet_no_bar i h)

-- What holds of the alphabet and of the padding holds of each character.
base64_encode-All :
    (P : ℕ → Type 0)
    → ((i : ℕ) → i < 64 → P (alphabet i))
    → P pad
    → (bs : Bytes) → All (λ b. b < 256) bs
    → All P (base64_encode bs)
unfolding base64_encode
base64_encode-All P p q [] h = tt
base64_encode-All P p q (b0 ∷ []) (h0, h) =
    rw (second b0 0 h0 (omega arith))
      (p (b0 / 4) (omega arith), (p (b0 % 4 * 16 + 0) (omega arith), (q, (q, tt))))
base64_encode-All P p q (b0 ∷ b1 ∷ []) (h0, (h1, h)) =
    rw (second b0 b1 h0 h1, third b1 0 h1 (omega arith))
      (
        p (b0 / 4) (omega arith),
        (p (b0 % 4 * 16 + b1 / 16) (omega arith), (p (b1 % 16 * 4 + 0) (omega arith), (q, tt))),
      )
base64_encode-All P p q (b0 ∷ b1 ∷ b2 ∷ rest) (h0, (h1, (h2, h))) =
    rw (second b0 b1 h0 h1, third b1 b2 h1 h2, and_0x3f b2 h2)
      (
        p (b0 / 4) (omega arith),
        (
          p (b0 % 4 * 16 + b1 / 16) (omega arith),
          (
            p (b1 % 16 * 4 + b2 / 64) (omega arith),
            (p (b2 % 64) (omega arith), base64_encode-All P p q rest h),
          ),
        ),
      )

-- No character of base64 is a vertical bar.
pub base64_encode-Lacks : (bs : Bytes) → All (λ b. b < 256) bs → Lacks 124 (base64_encode bs)
base64_encode-Lacks = base64_encode-All (λ b. (b == 124) ≡ false) alphabet_bar refl

unfoldable ascii_count : ℕ → ℕ
ascii_count i = if ltb (alphabet i) 0x80 then 1 else 0

alphabet_ascii_count : (i : ℕ) → i < 64 → ascii_count i ≡ 1
unfolding agree_below ascii_count alphabet
alphabet_ascii_count = agree_below→eq _ (λ i. 1) 64 refl

alphabet_ascii : (i : ℕ) → i < 64 → alphabet i < 0x80
unfolding ascii_count
alphabet_ascii i h = ground (arith, alphabet_ascii_count i h)

-- Each one is ASCII.
pub base64_encode_ascii :
    (bs : Bytes) → All (λ b. b < 256) bs → All (λ b. b < 0x80) (base64_encode bs)
base64_encode_ascii = base64_encode-All (λ b. b < 0x80) alphabet_ascii (omega arith)
