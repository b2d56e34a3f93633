-- ===== src/Chat/Handler.antt =====
-- src/chat/channel/handler.rs: the handlers of the system messages of a channel, by type, and the task
-- that a handler spawns.
pub mod Steps
pub mod Invite
pub mod Owner
pub mod Member
pub mod Passed
pub mod Frames
use plain_rs.Common.{
  ℕ, Bool, true, false, not, ◌&&◌, ◌||◌, List, [], ◌∷◌, ◌++◌, Option, none, some, Bytes, str_eq,
  filter, find?, is_empty, if◌then◌else◌, ◌>>=◌,
}
use plain_rs.Common.Int.{ℤ, ltb_ℤ, i64_add_one}
use plain_rs.Utils.Base64.{base64_decode}
use plain_rs.Crypto.{ed25519_verify}
use plain_rs.Chat.Enums.{
  channel, joined, kicked, pending, phone, PeerStatus, ChannelStatus, MemberStatus, DeviceType,
  ChannelSystemMessageType, ChannelSystemMessageAction, invite, invite_accept, invite_decline,
  update, kick, leave, is_gone,
}
use plain_rs.Chat.Messages.{
  ChannelMember, MemberPeerInfo, ChannelInvite, ChannelInviteAccept, ChannelInviteDecline,
  ChannelUpdate, ChannelKick, ChannelLeave, channel_message_payload, encode_members, decode_members,
  has_member, new_member, is_pending,
}
use plain_rs.Chat.Rows.{
  DPeer, new_peer, DChannel, ChatDb, get_peer_by_id, upsert_peer, get_channel_by_id, insert_channel,
  update_channel,
}
use plain_rs.Chat.Service.{
  Externals, ChatService, ChatEvent, BroadcastTask, InviteModel, ws_channel_invite_received,
  send_event, emit_channels_updated, deliver,
}
use plain_rs.Chat.Service.Caches.{load_key_cache}
use plain_rs.Utils.Base64.{base64_decode}
use plain_rs.Chat.Sender.{broadcast_update}
use plain_rs.Chat.Handler.Invite.{handle_invite}
use plain_rs.Chat.Handler.Owner.{handle_invite_accept, handle_invite_decline, handle_leave}
use plain_rs.Chat.Handler.Member.{handle_update, handle_kick}

module _ (ext : Externals) where
  -- The sub-handler of each type of message.
  unfoldable pub dispatch :
      Bytes → Bytes → ChannelSystemMessageType → Bytes → Bytes → ChatService → Bool × ChatService
  dispatch now from_id ChannelSystemMessageType.invite payload kp_bytes =
      handle_invite ext now from_id payload
  dispatch now from_id ChannelSystemMessageType.invite_accept payload kp_bytes =
      handle_invite_accept ext now from_id payload kp_bytes
  dispatch now from_id ChannelSystemMessageType.invite_decline payload kp_bytes =
      handle_invite_decline ext now from_id payload
  dispatch now from_id ChannelSystemMessageType.update payload kp_bytes =
      handle_update ext now from_id payload
  dispatch now from_id ChannelSystemMessageType.kick payload kp_bytes =
      handle_kick ext now from_id payload
  dispatch now from_id ChannelSystemMessageType.leave payload kp_bytes =
      handle_leave ext now from_id payload kp_bytes

  unfoldable pub handle :
      Bytes → Bytes → ChannelSystemMessageType → Bytes → Bytes → ChatService → Bool × ChatService
  handle now from_id msg_type payload kp_bytes s =
      let (result, s') = dispatch now from_id msg_type payload kp_bytes s in
      (result, if result then emit_channels_updated ext s' else s')

  -- The body of a spawned task, on the database of the time when it runs.
  unfoldable pub run_task : BroadcastTask → ChatService → ChatService
  run_task t s = emit_channels_updated ext (
      deliver
        (broadcast_update ext t.channel t.client_id t.device_name t.device_type t.kp_bytes s.db
          s.peer_key_cache t.channel_key)
        s)

  -- `ChatService::receive_peer_channel_system_message`: the event is sent again, whatever the answer.
  unfoldable pub receive_peer_channel_system_message :
      Bytes → Bytes → ChannelSystemMessageType → Bytes → ChatService → Bool × ChatService
  receive_peer_channel_system_message now from_id msg_type payload s =
      let (result, s') =
        handle now from_id msg_type payload (base64_decode s.identity.ed25519_keypair) s in
      (result, emit_channels_updated ext s')
