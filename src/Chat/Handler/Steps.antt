-- ===== src/Chat/Handler/Steps.antt =====
-- src/chat/channel/handler.rs: what the handlers share: the signature, the peers of a message, the
-- rosters, and the task that broadcasts a channel.
use plain_rs.Common.{
  Bool, true, false, not, ◌&&◌, ◌||◌, List, [], ◌∷◌, ◌++◌, Option, none, some, Bytes, str_eq,
  filter, is_empty, if◌then◌else◌,
}
use plain_rs.Common.Int.{i64_add_one}
use plain_rs.Utils.Base64.{base64_decode}
use plain_rs.Crypto.{ed25519_verify}
use plain_rs.Chat.Enums.{PeerStatus, MemberStatus}
use plain_rs.Chat.Messages.{
  ChannelMember, MemberPeerInfo, ChannelInviteAccept, encode_members, new_member, is_pending,
}
use plain_rs.Chat.Rows.{DPeer, new_peer, DChannel, ChatDb, get_peer_by_id, upsert_peer}
use plain_rs.Chat.Service.{Externals, ChatService}

-- A guard: none if the test fails.
abbrev pub ensure : Bool → Option (Unit {0})
ensure true = some tt
ensure false = none

-- The peers that a message brings and that are not known yet.
unfoldable pub member_peer : Bytes → MemberPeerInfo → DPeer
member_peer now m = record (new_peer now m.id m.name m.ip m.port m.device_type) {
  public_key = m.public_key;
  status = PeerStatus.channel;
}

abbrev pub is_some {ℓ} : {A : Type ℓ} → Option A → Bool
is_some none = false
is_some (some a) = true

unfoldable pub create_peers : Bytes → Bytes → List MemberPeerInfo → ChatDb → ChatDb
create_peers now from_id [] db = db
create_peers now from_id (m ∷ ms) db =
    if is_empty m.id || (str_eq m.id from_id || is_some (get_peer_by_id db m.id))
    then create_peers now from_id ms db
    else create_peers now from_id ms (upsert_peer (member_peer now m) db)

-- The peer that accepted an invite: created, or with what it lacked filled in.
unfoldable pub accepter_peer : Bytes → Bytes → ChannelInviteAccept → ChatDb → ChatDb
accepter_peer now from_id msg db = elim (get_peer_by_id db from_id) [
  | none ↦
      upsert_peer
        (record (new_peer now from_id msg.name [] 0 msg.device_type) {
          public_key = msg.public_key;
          status = PeerStatus.channel;
        })
        db
  | some p ↦
      let fill_key = is_empty p.public_key && not (is_empty msg.public_key) in
      let fill_name = is_empty p.name && not (is_empty msg.name) in
      if fill_key || fill_name
      then upsert_peer
          (record p {
            public_key = if fill_key then msg.public_key else p.public_key;
            name = if fill_name then msg.name else p.name;
            updated_at = now;
          })
          db
      else db
]

-- The first entry of the member turns joined, or a joined entry is added.
unfoldable pub join_member : Bytes → List ChannelMember → List ChannelMember
join_member id [] = new_member id ∷ []
join_member id (m ∷ ms) =
    if str_eq m.peer_id id
    then (if is_pending m then record m { status = MemberStatus.joined } else m) ∷ ms
    else m ∷ join_member id ms

unfoldable pub without_member : Bytes → List ChannelMember → List ChannelMember
without_member id = filter (λ (m : ChannelMember). not (str_eq m.peer_id id))

-- The task that broadcasts a channel, spawned if the channel has a key.
unfoldable pub spawn_broadcast : DChannel → Bytes → ChatService → ChatService
spawn_broadcast ch kp_bytes s =
    let channel_key = base64_decode ch.key in
    if not (is_empty channel_key)
    then record s {
      tasks =
          s.tasks
          ++ (record {
            channel = ch;
            client_id = s.identity.client_id;
            device_name = s.identity.device_name;
            device_type = s.wire_device_type;
            kp_bytes = kp_bytes;
            channel_key = channel_key;
          }
              ∷ []);
    }
    else s

abbrev pub set_db : ChatDb → ChatService → ChatService
set_db db s = record s { db = db }

module _ (ext : Externals) where
  unfoldable pub verify_channel_signature : Bytes → Bytes → Bytes → Bool
  verify_channel_signature public_key_b64 payload signature_b64 =
      if is_empty public_key_b64 || is_empty signature_b64
      then true
      else ed25519_verify ext.dalek public_key_b64 payload signature_b64

  -- A channel with another roster, which is another version of it.
  unfoldable pub with_roster : Bytes → List ChannelMember → DChannel → DChannel
  with_roster now members ch = record ch {
    members = encode_members ext.members_json members;
    version = i64_add_one ch.version;
    updated_at = now;
  }
