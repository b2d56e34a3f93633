-- ===== src/Chat/PeerAuth.antt =====
-- src/chat/peer_auth.rs: the authentication of a request of a peer.
pub mod Times
pub mod Signed
pub mod Window
pub mod Granted
use plain_rs.Common.{
  ℕ, zero, suc, ◌+◌, ◌-◌, ◌*◌, ◌%◌, ◌^◌, Bool, true, false, not, ◌||◌, List, [], ◌∷◌, ◌++◌, Option,
  none, some, Bytes, codes, is_empty, length, str_eq, lookup, split_once, ltb, leb, ◌==◌, within,
  if◌then◌else◌,
}
use plain_rs.Common.Int.{ℤ, pos, negsuc, pos_part, neg_part, sub_ℕ, ◌-ℤ◌, i64_max, ltb_ℤ}
use plain_rs.Utils.Utf8.{from_utf8_lossy}
use plain_rs.Utils.Base64.{base64_decode}
use plain_rs.Crypto.{ed25519_verify}
use plain_rs.Chat.Messages.{decimal, bar}
use plain_rs.Chat.Rows.{DPeer, ChatDb, get_peer_by_id, is_paired}
use plain_rs.Chat.Service.{KeyCache}
use plain_rs.Chat.Transport.{Wire}

abbrev pub timestamp_window_ms : ℤ
timestamp_window_ms = pos (5 * 60 * 1000)

pub record AuthenticatedPeer : Type 0 where
  pub peer : DPeer
  pub key : Bytes
  pub signature_b64 : Bytes
  pub timestamp : ℤ
  pub graphql_json : Bytes

pub data AuthError : Type 0 where
  unknown_peer not_paired decrypt_failed not_utf8 timestamp_expired bad_signature : AuthError
  missing_fields no_channel_key : AuthError

unfoldable pub reason : AuthError → Bytes
reason unknown_peer = codes "unknown peer"
reason not_paired = codes "not paired"
reason decrypt_failed = codes "decrypt failed"
reason not_utf8 = codes "not utf-8"
reason timestamp_expired = codes "timestamp expired"
reason bad_signature = codes "bad signature"
reason missing_fields = codes "missing fields"
reason no_channel_key = codes "no channel key"

-- `Result<A, AuthError>`, with `?` and `ok_or`.
pub data Auth (A : Type 0) : Type 0 where
  grants : A → Auth A
  denies : AuthError → Auth A

infixl 5 ◌>>=◌
abbrev pub ◌>>=◌ : {A B : Type 0} → Auth A → (A → Auth B) → Auth B
grants a >>= f = f a
denies e >>= f = denies e

abbrev pub ok_or : {A : Type 0} → AuthError → Option A → Auth A
ok_or e none = denies e
ok_or e (some a) = grants a

abbrev pub unless : AuthError → Bool → Auth (Unit {0})
unless e true = grants tt
unless e false = denies e

-- The number that decimal digits stand for, behind the digits of `acc`.
unfoldable pub number_of : ℕ → Bytes → Option ℕ
number_of acc [] = some acc
number_of acc (b ∷ bs) =
    let rest = number_of (acc * 10 + (b - 48)) bs in if within 48 57 b then rest else none

abbrev pub non_negative : Option ℕ → Option ℤ
non_negative none = none
non_negative (some n) = if leb n i64_max then some (pos n) else none

abbrev pub non_positive : Option ℕ → Option ℤ
non_positive none = none
non_positive (some zero) = some (pos 0)
non_positive (some (suc n)) = if leb n i64_max then some (negsuc n) else none

abbrev pub some_digits : Bytes → Option ℕ
some_digits [] = none
some_digits (b ∷ bs) = number_of 0 (b ∷ bs)

-- `str::parse::<i64>`
unfoldable pub parse_i64 : Bytes → Option ℤ
parse_i64 [] = none
parse_i64 (b ∷ bs) =
    if b == 45
    then non_positive (some_digits bs)
    else if b == 43
    then non_negative (some_digits bs)
    else non_negative (number_of 0 (b ∷ bs))

-- `splitn(3, '|')`, with the defaults for what is missing.
unfoldable pub three_parts : Bytes → Bytes × Bytes × Bytes
three_parts s = elim (split_once bar s) [
  | none ↦ (s, [], [])
  | some (signature, rest) ↦ elim (split_once bar rest) [
    | none ↦ (signature, rest, [])
    | some (ts, json) ↦ (signature, ts, json)
  ]
]

-- The difference of two `i64`, which wraps around, and the absolute value, which is the least `i64` for
-- the least `i64`.
unfoldable pub i64_difference : ℤ → ℤ → ℤ
i64_difference a b =
    let d = a -ℤ b in sub_ℕ ((pos_part d + 2 ^ 64 + 2 ^ 63 - neg_part d) % 2 ^ 64) (2 ^ 63)

unfoldable pub i64_abs : ℤ → ℤ
i64_abs (pos n) = pos n
i64_abs (negsuc n) = if n == i64_max then negsuc n else pos (suc n)

unfoldable pub is_fresh : ℤ → ℤ → Bool
is_fresh now_ms timestamp =
    not (ltb_ℤ timestamp_window_ms (i64_abs (i64_difference now_ms timestamp)))

abbrev pub or_zero : Option ℤ → ℤ
or_zero none = pos 0
or_zero (some n) = n

-- The key of the channel of the request, or of the peer itself, which must be paired.
unfoldable pub request_key : DPeer → Bytes → KeyCache → Auth Bytes
request_key peer header_channel_id channel_key_cache =
    if not (is_empty header_channel_id)
    then ok_or no_channel_key (lookup header_channel_id channel_key_cache)
    else if not (is_paired peer)
    then denies not_paired
    else grants (base64_decode peer.key)

-- `std::str::from_utf8(...).is_ok()`: the reading that replaces what is invalid replaces nothing.
unfoldable pub is_utf8 : Bytes → Bool
is_utf8 s = str_eq (from_utf8_lossy s) s

module _ (wire : Wire) where
  unfoldable pub authenticate :
      ChatDb → ℤ → Bytes → Bytes → Bytes → KeyCache → Auth AuthenticatedPeer
  authenticate db now_ms header_client_id header_channel_id body channel_key_cache = do
    peer ← ok_or unknown_peer (get_peer_by_id db header_client_id)
    key ← request_key peer header_channel_id channel_key_cache
    plaintext ← ok_or decrypt_failed (wire.decrypt key body)
    _ ← unless not_utf8 (is_utf8 plaintext)
    (signature_b64, ts_str, graphql_json) ← grants (three_parts plaintext)
    _ ← unless missing_fields (not (is_empty signature_b64 || is_empty graphql_json))
    timestamp ← grants (or_zero (parse_i64 ts_str))
    _ ← unless timestamp_expired (is_fresh now_ms timestamp)
    _ ← unless bad_signature (
        ed25519_verify wire.dalek peer.public_key (decimal timestamp ++ graphql_json) signature_b64)
    grants (record {
      peer = peer;
      key = key;
      signature_b64 = signature_b64;
      timestamp = timestamp;
      graphql_json = graphql_json;
    })
