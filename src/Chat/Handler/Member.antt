-- ===== src/Chat/Handler/Member.antt =====
-- src/chat/channel/handler.rs: the messages that a member of a channel handles: another roster, and
-- the end of the membership.
use plain_rs.Common.{Bool, true, false, [], Option, none, some, Bytes, str_eq, ◌>>=◌}
use plain_rs.Common.Int.{ltb_ℤ}
use plain_rs.Chat.Enums.{ChannelStatus, ChannelSystemMessageAction}
use plain_rs.Chat.Messages.{ChannelUpdate, channel_message_payload, encode_members, decode_members}
use plain_rs.Chat.Rows.{DChannel, ChatDb, get_peer_by_id, get_channel_by_id, update_channel}
use plain_rs.Chat.Service.{Externals, ChatService}
use plain_rs.Chat.Handler.Steps.{
  ensure, create_peers, without_member, set_db, verify_channel_signature,
}

module _ (ext : Externals) where
  unfoldable pub update_guards : Bytes → Bytes → ChatDb → Option (ChannelUpdate × DChannel)
  update_guards from_id payload db = do
    msg ← ext.update_json.from_str payload
    ch ← get_channel_by_id db msg.channel_id
    _ ← ensure (str_eq ch.owner_id from_id)
    owner ← get_peer_by_id db ch.owner_id
    _ ← ensure (
        verify_channel_signature ext owner.public_key
          (channel_message_payload msg.channel_id msg.version ChannelSystemMessageAction.update [])
          msg.signature)
    _ ← ensure (ltb_ℤ ch.version msg.version)
    some (msg, ch)

  unfoldable pub updated : Bytes → ChannelUpdate → DChannel → DChannel
  updated now msg ch = record ch {
    name = msg.channel_name;
    members = encode_members ext.members_json msg.members;
    version = msg.version;
    updated_at = now;
  }

  unfoldable pub handle_update : Bytes → Bytes → Bytes → ChatService → Bool × ChatService
  handle_update now from_id payload s = elim (update_guards from_id payload s.db) [
    | none ↦ (false, s)
    | some (msg, ch) ↦ (
      true,
      set_db (update_channel (updated now msg ch) (create_peers now from_id msg.member_peers s.db))
          s,
    )
  ]

  unfoldable pub kick_guards : Bytes → Bytes → Bytes → ChatDb → Option DChannel
  kick_guards client_id from_id payload db = do
    msg ← ext.kick_json.from_str payload
    ch ← get_channel_by_id db msg.channel_id
    _ ← ensure (str_eq ch.owner_id from_id)
    owner ← get_peer_by_id db ch.owner_id
    _ ← ensure (
        verify_channel_signature ext owner.public_key
          (channel_message_payload msg.channel_id msg.version ChannelSystemMessageAction.kick
            client_id)
          msg.signature)
    some ch

  unfoldable pub kicked_from : Bytes → Bytes → DChannel → DChannel
  kicked_from now client_id ch = record ch {
    status = ChannelStatus.kicked;
    members =
        encode_members ext.members_json
          (without_member client_id (decode_members ext.members_json ch.members));
    updated_at = now;
  }

  unfoldable pub handle_kick : Bytes → Bytes → Bytes → ChatService → Bool × ChatService
  handle_kick now from_id payload s = elim (kick_guards s.identity.client_id from_id payload s.db) [
    | none ↦ (false, s)
    | some ch ↦ (true, set_db (update_channel (kicked_from now s.identity.client_id ch) s.db) s)
  ]
