-- ===== src/Examples/Requests.antt =====
-- src/chat/peer_auth.rs: requests of a member of a channel and of a paired peer.
use plain_rs.Common.{
  ◌<◌, ◌-◌, ◌^◌, ◌≡◌, ◌⊎◌, refl, subst, some_inj, true, false, [], ◌∷◌, ◌++◌, Option, none, some,
  Bytes, codes, All, arith, str_eq, lookup, is_empty,
}
use plain_rs.Common.Int.{pos, negsuc, ◌-ℤ◌}
use plain_rs.Utils.Utf8.{IsUtf8, one, nil}
use plain_rs.Utils.Base64.{base64_decode}
use plain_rs.Crypto.{ed25519_sign, ed25519_verify}
use plain_rs.Chat.Enums.{
  err, PeerStatus, peer_status_of, peer_status_text, device_type_of, device_type_text,
}
use plain_rs.Chat.Messages.{decimal}
use plain_rs.Chat.Rows.{DPeer, ChatDb, new_peer, row_to_peer, get_peer_by_id, is_paired}
use plain_rs.Chat.Service.{KeyCache}
use plain_rs.Chat.Transport.{Wire, accepted, signed_request}
use plain_rs.Chat.PeerAuth.{
  grants, AuthenticatedPeer, authenticate, request_key, is_fresh, i64_difference, i64_abs,
}
use plain_rs.Chat.PeerAuth.Signed.{authenticate-signed_request}
use plain_rs.Chat.PeerAuth.{or_zero, parse_i64}
use plain_rs.Chat.PeerAuth.Window.{WithinFiveMinutes, WrapsAround, Joined}
use plain_rs.Chat.PeerAuth.Granted.{authenticate_granted}
use plain_rs.Examples.Wire.{the_dalek, the_dalek-DalekLaws, fingerprint, All-repeat}
use plain_rs.Examples.Channels.{the_kp, owner, the_service}

kp_bytes : All (λ b. b < 256) the_kp
kp_bytes = All-repeat 64 7 (omega arith)

-- A cipher that writes the key in front.
abbrev second_of : Bytes → Option Bytes
second_of [] = none
second_of (b ∷ bs) = some bs

abbrev the_wire : Wire
the_wire = record {
  dalek = the_dalek;
  encrypt = λ key plain. some (7 ∷ plain);
  decrypt = λ key encrypted. second_of encrypted;
  post = λ url client_id channel_id body. err (codes "no route");
  chat_item_request = λ content. content;
  system_message_request = λ msg_type payload. payload;
  read_response = λ response. some accepted;
}

opens : (plain closed : Bytes) → some (7 ∷ plain) ≡ some closed → second_of closed ≡ some plain
opens plain closed h = subst (λ c. second_of c ≡ some plain) (some_inj h) refl

abbrev the_json : Bytes
the_json = codes "{}"

json-IsUtf8 : IsUtf8 the_json
json-IsUtf8 = one (omega arith) (one (omega arith) nil)

abbrev the_cache : KeyCache
the_cache = (codes "c", codes "k") ∷ []

abbrev paired_owner : DPeer
paired_owner = record owner { status = PeerStatus.paired }

abbrev the_db : ChatDb
the_db = record the_service.db { peers = paired_owner ∷ [] }

knows_paired : get_peer_by_id the_db (codes "a") ≡ some paired_owner
unfolding get_peer_by_id row_to_peer peer_status_of peer_status_text device_type_of device_type_text
    new_peer str_eq
knows_paired = refl

key_of_channel : request_key paired_owner (codes "c") the_cache ≡ grants (codes "k")
unfolding request_key lookup str_eq
key_of_channel = refl

key_of_peer : request_key paired_owner [] the_cache ≡ grants (base64_decode paired_owner.key)
unfolding request_key new_peer
key_of_peer = refl

abbrev the_message : Bytes
the_message = decimal (pos 5) ++ the_json

abbrev the_body : Bytes
the_body = 7 ∷ signed_request the_wire the_kp (pos 5) the_json

abbrev request_with : Bytes → AuthenticatedPeer
request_with key = record {
  peer = paired_owner;
  key = key;
  signature_b64 = ed25519_sign the_dalek the_kp the_message;
  timestamp = pos 5;
  graphql_json = the_json;
}

authenticate-signed_request_example :
    authenticate the_wire the_db (pos 300005) (codes "a") (codes "c") the_body the_cache
    ≡ grants (request_with (codes "k"))
authenticate-signed_request_example =
    authenticate-signed_request the_wire the_dalek-DalekLaws the_kp refl kp_bytes 5 the_json
      (fingerprint the_message) refl the_db 300005 (codes "a") (codes "c") the_body (codes "k")
      the_cache paired_owner knows_paired refl key_of_channel opens refl json-IsUtf8 refl
      (omega arith) (omega arith) (omega arith) (omega arith)

of_paired :
    authenticate the_wire the_db (pos 6) (codes "a") [] the_body the_cache
    ≡ grants (request_with (base64_decode paired_owner.key))
of_paired =
    authenticate-signed_request the_wire the_dalek-DalekLaws the_kp refl kp_bytes 5 the_json
      (fingerprint the_message) refl the_db 6 (codes "a") [] the_body
      (base64_decode paired_owner.key) the_cache paired_owner knows_paired refl key_of_peer opens
      refl json-IsUtf8 refl (omega arith) (omega arith) (omega arith) (omega arith)

abbrev granted : AuthenticatedPeer
granted = request_with (base64_decode paired_owner.key)

authenticate_granted_example :
    (get_peer_by_id the_db (codes "a") ≡ some granted.peer)
    × (((true ≡ true)
          × (is_paired granted.peer ≡ true)
          × (granted.key ≡ base64_decode granted.peer.key))
        ⊎ ((true ≡ false) × (lookup [] the_cache ≡ some granted.key)))
    × ((plain : Bytes) × (ts : Bytes) × (the_wire.decrypt granted.key the_body ≡ some plain)
        × Joined plain (granted.signature_b64, ts, granted.graphql_json)
        × (granted.timestamp ≡ or_zero (parse_i64 ts)))
    × (is_empty granted.signature_b64 ≡ false)
    × (is_empty granted.graphql_json ≡ false)
    × (WithinFiveMinutes (pos 6) granted.timestamp ⊎ WrapsAround (pos 6) granted.timestamp)
    × (ed25519_verify the_dalek granted.peer.public_key
          (decimal granted.timestamp ++ granted.graphql_json)
          granted.signature_b64
        ≡ true)
authenticate_granted_example =
    authenticate_granted the_wire the_db 6 (codes "a") [] the_body the_cache (omega arith) granted
      of_paired

-- The time 2^63 before now, whose difference to now wraps around.
wraps : is_fresh (pos 5) (negsuc (2 ^ 63 - 6)) ≡ true
unfolding is_fresh i64_difference i64_abs ◌-ℤ◌
wraps = refl
