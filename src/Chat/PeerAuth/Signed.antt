-- ===== src/Chat/PeerAuth/Signed.antt =====
-- src/chat/peer_auth.rs and src/chat/transport.rs: a request as its sender signs and encrypts it, at the
-- peer that it reaches.
use plain_rs.Common.{
  ℕ, ◌+◌, ◌<◌, ◌≤◌, ◌≡◌, refl, ap, ◌∙◌, true, false, ◌∷◌, ◌++◌, some, Bytes, All, is_empty, length,
  leb, ◌==◌, str_eq, str_eq_refl, split_once-append, arith,
}
use plain_rs.Common.Int.{pos, i64_max}
use plain_rs.Utils.Utf8.{IsUtf8, one, IsUtf8-append, from_utf8_lossy_id}
use plain_rs.Crypto.{DalekLaws, ed25519_sign, ed25519_verify}
use plain_rs.Chat.Messages.{decimal, bar}
use plain_rs.Chat.Rows.{DPeer, ChatDb, get_peer_by_id}
use plain_rs.Chat.Service.{KeyCache}
use plain_rs.Chat.Sender.{own_public_key}
use plain_rs.Chat.Signing.{
  ed25519_sign_nonempty, ed25519_sign_ascii, ed25519_sign-Lacks, ed25519_verify-ed25519_sign,
}
use plain_rs.Chat.Transport.{Wire, signed_request}
use plain_rs.Chat.PeerAuth.{grants, authenticate, request_key, three_parts, is_utf8}
use plain_rs.Chat.PeerAuth.Times.{
  AreDigits-Lacks, digits_ascii, decimal-AreDigits, parse_i64-decimal, is_fresh-pos,
}

three_parts_joined :
    (signature ts json : Bytes)
    → All (λ b. (b == bar) ≡ false) signature
    → All (λ b. (b == bar) ≡ false) ts
    → three_parts (signature ++ (bar ∷ (ts ++ (bar ∷ json)))) ≡ (signature, ts, json)
unfolding three_parts
three_parts_joined signature ts json hs ht = ground (
  arith,
  split_once-append bar signature (ts ++ (bar ∷ json)) hs,
  split_once-append bar ts json ht,
)

leb_of : (n m : ℕ) → n ≤ m → leb n m ≡ true
leb_of n m h = ground arith

module _ (wire : Wire) (laws : DalekLaws wire.dalek) (kp : Bytes) (size : length kp ≡ 64)
    (bytes : All (λ b. b < 256) kp) (ts : ℕ) (graphql_json signature : Bytes)
    (signed : wire.dalek.signs kp (decimal (pos ts) ++ graphql_json) ≡ some signature) where
  abbrev message : Bytes
  message = decimal (pos ts) ++ graphql_json

  signed_request_parts :
      three_parts (signed_request wire kp (pos ts) graphql_json)
      ≡ (ed25519_sign wire.dalek kp message, decimal (pos ts), graphql_json)
  unfolding signed_request
  signed_request_parts =
      three_parts_joined (ed25519_sign wire.dalek kp message) (decimal (pos ts)) graphql_json
        (ed25519_sign-Lacks wire.dalek laws kp size bytes message signature signed)
        (AreDigits-Lacks bar (decimal (pos ts)) refl (decimal-AreDigits ts))

  request_verified :
      ed25519_verify wire.dalek (own_public_key kp) message (ed25519_sign wire.dalek kp message)
      ≡ true
  request_verified =
      ed25519_verify-ed25519_sign wire.dalek laws kp size bytes message signature signed message
      ∙ laws.signature_verifies signed

  request_utf8 : IsUtf8 graphql_json → is_utf8 (signed_request wire kp (pos ts) graphql_json) ≡ true
  unfolding is_utf8 signed_request
  request_utf8 h =
      ap (λ t. str_eq t (signed_request wire kp (pos ts) graphql_json))
        (from_utf8_lossy_id (
          IsUtf8-append (ed25519_sign wire.dalek kp message)
            (ed25519_sign_ascii wire.dalek laws kp size bytes message signature signed)
            (one (omega arith) (
              IsUtf8-append (decimal (pos ts))
                (digits_ascii (decimal (pos ts)) (decimal-AreDigits ts)) (one (omega arith) h)))))
      ∙ str_eq_refl (signed_request wire kp (pos ts) graphql_json)

  -- A request that its sender signs with its key pair and encrypts with the key that the receiver
  -- selects is granted within five minutes, with its parts as they were, if the receiver knows the
  -- public key of the sender, the JSON is valid UTF-8 and not empty, and the cipher opens what it
  -- closed.
  pub authenticate-signed_request :
      (db : ChatDb) (now : ℕ) (client_id channel_id body key : Bytes) (cache : KeyCache)
      (peer : DPeer)
      → get_peer_by_id db client_id ≡ some peer
      → peer.public_key ≡ own_public_key kp
      → request_key peer channel_id cache ≡ grants key
      → ((plain closed : Bytes)
          → wire.encrypt key plain ≡ some closed
          → wire.decrypt key closed ≡ some plain)
      → wire.encrypt key (signed_request wire kp (pos ts) graphql_json) ≡ some body
      → IsUtf8 graphql_json
      → is_empty graphql_json ≡ false
      → now ≤ i64_max
      → ts ≤ i64_max
      → now ≤ ts + 300000
      → ts ≤ now + 300000
      → authenticate wire db (pos now) client_id channel_id body cache
        ≡ grants (record {
          peer = peer;
          key = key;
          signature_b64 = ed25519_sign wire.dalek kp (decimal (pos ts) ++ graphql_json);
          timestamp = pos ts;
          graphql_json = graphql_json;
        })
  unfolding authenticate
  authenticate-signed_request db now client_id channel_id body key cache peer known public selected
        opens closed utf8 full hn ht ha hb =
      rw
        (
          known,
          selected,
          opens (signed_request wire kp (pos ts) graphql_json) body closed,
          request_utf8 utf8,
          signed_request_parts,
          ed25519_sign_nonempty wire.dalek laws kp size bytes message signature signed,
          full,
          parse_i64-decimal ts (leb_of ts i64_max ht),
          is_fresh-pos now ts hn ht ha hb,
          public,
          request_verified,
        )
        refl
