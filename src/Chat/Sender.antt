-- ===== src/Chat/Sender.antt =====
-- src/chat/channel/sender.rs: the system messages that a member sends. A message is the arguments of
-- one call of the transport; a peer that lacks its key is skipped.
use plain_rs.Common.{
  List, [], ◌∷◌, Option, none, some, Bytes, str_eq, length, drop, ◌==◌, if◌then◌else◌,
}
use plain_rs.Common.Int.{ℤ}
use plain_rs.Utils.Base64.{base64_encode}
use plain_rs.Crypto.{ed25519_sign}
use plain_rs.Chat.Enums.{
  ok, err, DeviceType, device_type_of, ChannelSystemMessageType, ChannelSystemMessageAction,
}
use plain_rs.Chat.Messages.{
  ChannelMember, MemberPeerInfo, ChannelInvite, ChannelUpdate, ChannelKick, channel_message_payload,
  decode_members,
}
use plain_rs.Chat.Rows.{DPeer, DChannel, ChatDb, get_peer_by_id}
use plain_rs.Chat.Delivery.{deliver_type, deliver_all}
use plain_rs.Chat.Service.{Externals, KeyCache, Delivery}

-- The public half of a key pair in base64, or the empty text for another length.
unfoldable pub own_public_key : Bytes → Bytes
own_public_key kp_bytes = if length kp_bytes == 64 then base64_encode (drop 32 kp_bytes) else []

unfoldable pub peer_info : DPeer → MemberPeerInfo
peer_info p = record {
  id = p.id;
  name = p.name;
  public_key = p.public_key;
  device_type = p.device_type;
  ip = p.ip;
  port = p.port;
}

-- The members other than the sender that are known peers.
unfoldable pub other_infos : ChatDb → Bytes → List ChannelMember → List MemberPeerInfo
other_infos db client_id [] = []
other_infos db client_id (m ∷ ms) =
    let rest = other_infos db client_id ms in
    if str_eq m.peer_id client_id
    then rest
    else elim (get_peer_by_id db m.peer_id) [ none ↦ rest | some p ↦ peer_info p ∷ rest ]

unfoldable pub ids_excluding : Bytes → List ChannelMember → List Bytes
ids_excluding exclude_id [] = []
ids_excluding exclude_id (m ∷ ms) =
    let rest = ids_excluding exclude_id ms in
    if str_eq m.peer_id exclude_id then rest else m.peer_id ∷ rest

-- `parse_device_type`, with its default.
unfoldable pub parse_device_type : Bytes → DeviceType
parse_device_type s = elim (device_type_of s) [ ok d ↦ d | err e ↦ DeviceType.phone ]

module _ (ext : Externals) where
  unfoldable pub build_member_peers :
      DChannel → ChatDb → Bytes → Bytes → DeviceType → Bytes → List MemberPeerInfo
  build_member_peers channel db client_id device_name self_device_type kp_bytes =
      (record {
        id = client_id;
        name = device_name;
        public_key = own_public_key kp_bytes;
        device_type = self_device_type;
        ip = [];
        port = 0;
      })
      ∷ other_infos db client_id (decode_members ext.members_json channel.members)

  unfoldable pub member_ids_excluding : DChannel → Bytes → List Bytes
  member_ids_excluding channel exclude_id =
      ids_excluding exclude_id (decode_members ext.members_json channel.members)

  -- The signature over the payload of an action.
  abbrev pub sign : Bytes → Bytes → ℤ → ChannelSystemMessageAction → Bytes → Bytes
  sign kp_bytes channel_id version action target =
      ed25519_sign ext.dalek kp_bytes (channel_message_payload channel_id version action target)

  unfoldable pub invite_message :
      DChannel → DPeer → Bytes → Bytes → DeviceType → Bytes → ChatDb → ChannelInvite
  invite_message channel peer client_id device_name self_device_type kp_bytes db = record {
    channel_id = channel.id;
    channel_name = channel.name;
    key = channel.key;
    owner = client_id;
    members = decode_members ext.members_json channel.members;
    member_peers = build_member_peers channel db client_id device_name self_device_type kp_bytes;
    version = channel.version;
    signature = sign kp_bytes channel.id channel.version ChannelSystemMessageAction.invite peer.id;
  }

  unfoldable pub send_invite :
      DChannel
      → DPeer
      → Bytes
      → Bytes
      → DeviceType
      → Bytes
      → ChatDb
      → KeyCache
      → Bytes
      → Option Delivery
  send_invite channel peer client_id device_name device_type kp_bytes db key_cache channel_key =
      deliver_type peer client_id kp_bytes ChannelSystemMessageType.invite
        (ext.invite_json.to_string
          (invite_message channel peer client_id device_name device_type kp_bytes db))
        channel.id channel_key key_cache

  unfoldable pub send_invite_accept :
      Bytes → DPeer → Bytes → Bytes → Bytes → DeviceType → Bytes → KeyCache → Option Delivery
  send_invite_accept channel_id owner_peer client_id kp_bytes name device_type channel_key cache =
      deliver_type owner_peer client_id kp_bytes ChannelSystemMessageType.invite_accept
        (ext.accept_json.to_string (record {
          channel_id = channel_id;
          public_key = own_public_key kp_bytes;
          name = name;
          device_type = device_type;
        }))
        channel_id channel_key cache

  unfoldable pub send_invite_decline :
      Bytes → DPeer → Bytes → Bytes → Bytes → KeyCache → Option Delivery
  send_invite_decline channel_id owner_peer client_id kp_bytes channel_key key_cache =
      deliver_type owner_peer client_id kp_bytes ChannelSystemMessageType.invite_decline
        (ext.decline_json.to_string (record { channel_id = channel_id })) channel_id channel_key
        key_cache

  unfoldable pub update_message :
      DChannel → Bytes → Bytes → DeviceType → Bytes → ChatDb → ChannelUpdate
  update_message channel client_id device_name self_device_type kp_bytes db = record {
    channel_id = channel.id;
    channel_name = channel.name;
    members = decode_members ext.members_json channel.members;
    member_peers = build_member_peers channel db client_id device_name self_device_type kp_bytes;
    version = channel.version;
    signature = sign kp_bytes channel.id channel.version ChannelSystemMessageAction.update [];
  }

  unfoldable pub broadcast_update :
      DChannel → Bytes → Bytes → DeviceType → Bytes → ChatDb → KeyCache → Bytes → List Delivery
  broadcast_update channel client_id device_name device_type kp_bytes db key_cache channel_key =
      deliver_all db client_id kp_bytes ChannelSystemMessageType.update
        (ext.update_json.to_string
          (update_message channel client_id device_name device_type kp_bytes db))
        channel.id channel_key key_cache (member_ids_excluding channel client_id)

  unfoldable pub kick_message : Bytes → ℤ → Bytes → Bytes → ChannelKick
  kick_message channel_id version target kp_bytes = record {
    channel_id = channel_id;
    version = version;
    signature = sign kp_bytes channel_id version ChannelSystemMessageAction.kick target;
  }

  unfoldable pub send_kick : Bytes → ℤ → DPeer → Bytes → Bytes → Bytes → KeyCache → Option Delivery
  send_kick channel_id version peer client_id kp_bytes channel_key key_cache =
      deliver_type peer client_id kp_bytes ChannelSystemMessageType.kick
        (ext.kick_json.to_string (kick_message channel_id version peer.id kp_bytes)) channel_id
        channel_key key_cache

  -- For no target: every member gets the same text.
  unfoldable pub broadcast_kick_message : DChannel → Bytes → ChannelKick
  broadcast_kick_message channel kp_bytes = record {
    channel_id = channel.id;
    version = channel.version;
    signature = sign kp_bytes channel.id channel.version ChannelSystemMessageAction.kick [];
  }

  unfoldable pub broadcast_kick :
      DChannel → Bytes → Bytes → ChatDb → KeyCache → Bytes → List Delivery
  broadcast_kick channel client_id kp_bytes db key_cache channel_key =
      deliver_all db client_id kp_bytes ChannelSystemMessageType.kick
        (ext.kick_json.to_string (broadcast_kick_message channel kp_bytes)) channel.id channel_key
        key_cache (member_ids_excluding channel client_id)

  unfoldable pub send_leave : Bytes → DPeer → Bytes → Bytes → Bytes → KeyCache → Option Delivery
  send_leave channel_id owner_peer client_id kp_bytes channel_key key_cache =
      deliver_type owner_peer client_id kp_bytes ChannelSystemMessageType.leave
        (ext.leave_json.to_string (record { channel_id = channel_id })) channel_id channel_key
        key_cache
