-- ===== src/Utils/Query.antt =====
-- src/utils/query.rs: percent coding of URL components and query strings.
-- A string is its list of bytes.
pub mod RoundTrip
pub mod Pairs
use plain_rs.Common.{
  ℕ, zero, suc, ◌+◌, ◌-◌, ◌*◌, ◌/◌, ◌%◌, ◌<◌, ◌≡◌, refl, sym, ap, ◌∙◌, Bool, true, false, ◌||◌,
  List, [], ◌∷◌, ◌++◌, append_assoc, append-nil, arith, ltb, leb, within, ◌==◌, if◌then◌else◌,
  Bytes, All, Option, none, some, str_eq, str_eq_iff, is_empty, split, split_once, lookup, insert,
  ◌>>=◌, Bool-cases, inl, inr,
}
use plain_rs.Utils.Utf8.{from_utf8_lossy, IsUtf8, from_utf8_lossy_id, IsUtf8-bytes}

unfoldable pub hex_nibble : ℕ → Option ℕ
hex_nibble b =
    if within b'0' b'9' b
    then some (b - b'0')
    else if within b'a' b'f' b
    then some (b - b'a' + 10)
    else if within b'A' b'F' b
    then some (b - b'A' + 10)
    else none

-- `(h << 4) | l` of two nibbles.
abbrev pair_value : Option ℕ → Option ℕ → Option ℕ
pair_value (some h) (some l) = some (h * 16 + l)
pair_value (some h) none = none
pair_value none l = none

-- One byte outside a triplet: `+` is a space, anything else stands for itself.
abbrev plain_byte : ℕ → ℕ
plain_byte b = if b == b'+' then b' ' else b

-- The value of the triplet `b x y`, if it is one.
abbrev triplet : ℕ → ℕ → ℕ → Option ℕ
triplet b x y = if b == b'%' then pair_value (hex_nibble x) (hex_nibble y) else none

abbrev decoded : Option ℕ → ℕ → ℕ
decoded none b = plain_byte b
decoded (some v) b = v

abbrev used_up : Option ℕ → ℕ
used_up none = 0
used_up (some v) = 2

-- The loop of `percent_decode`. `skip` counts the bytes that a `%XX` triplet has already used up.
decode_from : ℕ → Bytes → Bytes
unfolding hex_nibble
decode_from skip [] = []
decode_from (suc skip) (b ∷ bs) = decode_from skip bs
decode_from zero (b ∷ []) = plain_byte b ∷ []
decode_from zero (b ∷ x ∷ []) = plain_byte b ∷ decode_from zero (x ∷ [])
decode_from zero (b ∷ x ∷ y ∷ bs) =
    decoded (triplet b x y) b ∷ decode_from (used_up (triplet b x y)) (x ∷ y ∷ bs)

unfoldable pub percent_decode : Bytes → Bytes
unfolding decode_from
percent_decode input = from_utf8_lossy (decode_from 0 input)

unfoldable pub is_unreserved : ℕ → Bool
is_unreserved b =
    within b'A' b'Z' b
    || within b'a' b'z' b
    || within b'0' b'9' b
    || b == b'-'
    || b == b'_'
    || b == b'.'
    || b == b'~'

-- A digit of `{:02X}`.
unfoldable pub upper_digit : ℕ → ℕ
upper_digit n = if ltb n 10 then n + b'0' else n - 10 + b'A'

unfoldable pub url_encode : Bytes → Bytes
unfolding is_unreserved upper_digit
url_encode [] = []
url_encode (b ∷ bs) =
    (if is_unreserved b then b ∷ [] else b'%' ∷ upper_digit (b / 16) ∷ upper_digit (b % 16) ∷ [])
    ++ url_encode bs

abbrev pair_of : Bytes → Bytes × Bytes
pair_of kv = elim (split_once b'=' kv) [ none ↦ (kv, []) | some p ↦ p ]

-- The loop of `parse_query`; the map is an association list, and a later pair wins.
parse_pairs : List Bytes → List (Bytes × Bytes) → List (Bytes × Bytes)
parse_pairs [] out = out
parse_pairs (kv ∷ kvs) out = parse_pairs kvs (
    if is_empty kv
    then out
    else insert (percent_decode (pair_of kv).0) (percent_decode (pair_of kv).1) out)

unfoldable pub parse_query : Bytes → List (Bytes × Bytes)
unfolding parse_pairs
parse_query q = parse_pairs (split b'&' q) []

unfoldable pub query_get : Bytes → Bytes → Option Bytes
query_get path key = do (_, query) ← split_once b'?' path; lookup key (parse_query query)
