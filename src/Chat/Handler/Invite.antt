-- ===== src/Chat/Handler/Invite.antt =====
-- src/chat/channel/handler.rs: the invite, which the invited peer handles. The early returns of a
-- handler are an `Option`; `now` is the time that a call reads.
use plain_rs.Common.{
  Bool, true, false, not, [], Option, none, some, Bytes, str_eq, find?, is_empty, if◌then◌else◌,
  ◌>>=◌,
}
use plain_rs.Chat.Enums.{ChannelStatus, ChannelSystemMessageAction, is_gone}
use plain_rs.Chat.Messages.{MemberPeerInfo, ChannelInvite, channel_message_payload, encode_members}
use plain_rs.Chat.Rows.{
  DPeer, DChannel, ChatDb, get_peer_by_id, get_channel_by_id, insert_channel, update_channel,
}
use plain_rs.Chat.Service.{Externals, ChatService, ws_channel_invite_received, send_event}
use plain_rs.Chat.Service.Caches.{load_key_cache}
use plain_rs.Chat.Handler.Steps.{ensure, create_peers, set_db, verify_channel_signature}

abbrev pub name_of_peer : Option DPeer → Bytes
name_of_peer none = []
name_of_peer (some p) = p.name

module _ (ext : Externals) where
  unfoldable pub invite_guards : Bytes → Bytes → Bytes → ChatDb → Option ChannelInvite
  invite_guards client_id from_id payload db = do
    msg ← ext.invite_json.from_str payload
    _ ← ensure (not (is_empty msg.channel_id))
    _ ← ensure (str_eq msg.owner from_id)
    owner ← find? (λ (m : MemberPeerInfo). str_eq m.id msg.owner) msg.member_peers
    _ ← ensure (not (is_empty owner.public_key))
    _ ← ensure (
        verify_channel_signature ext owner.public_key
          (channel_message_payload msg.channel_id msg.version ChannelSystemMessageAction.invite
            client_id)
          msg.signature)
    _ ← get_peer_by_id db from_id
    some msg

  -- The channel of an invite: of a channel that was left, or a new one.
  unfoldable pub reinvited : Bytes → Bytes → ChannelInvite → DChannel → DChannel
  reinvited now from_id msg ch = record ch {
    name = msg.channel_name;
    owner_id = from_id;
    members = encode_members ext.members_json msg.members;
    key = if is_empty msg.key then ch.key else msg.key;
    version = msg.version;
    status = ChannelStatus.joined;
    updated_at = now;
  }

  unfoldable pub invited : Bytes → Bytes → ChannelInvite → DChannel
  invited now from_id msg = record {
    id = msg.channel_id;
    name = msg.channel_name;
    owner_id = from_id;
    members = encode_members ext.members_json msg.members;
    key = msg.key;
    version = msg.version;
    status = ChannelStatus.joined;
    created_at = now;
    updated_at = now;
  }

  -- What follows the write of the channel of an invite; the name is read once the peers are stored.
  unfoldable pub invite_received : Bytes → ChannelInvite → Bytes → ChatService → ChatService
  invite_received from_id msg owner_name s =
      send_event
        (record {
          event_type = ws_channel_invite_received;
          payload = ext.invite_event_json (record {
            channel_id = msg.channel_id;
            channel_name = msg.channel_name;
            from_id = from_id;
            from_name = owner_name;
          });
        })
        (load_key_cache s)

  unfoldable pub store_invite : Bytes → Bytes → ChannelInvite → ChatService → Bool × ChatService
  store_invite now from_id msg s =
      let db' = create_peers now from_id msg.member_peers s.db in
      let owner_name = name_of_peer (get_peer_by_id db' from_id) in
      elim (get_channel_by_id s.db msg.channel_id) [
        | none ↦ (
          true,
          invite_received from_id msg owner_name
              (set_db (insert_channel (invited now from_id msg) db') s),
        )
        | some ch ↦
            if is_gone ch.status
            then (
              true,
              invite_received from_id msg owner_name
                  (set_db (update_channel (reinvited now from_id msg ch) db') s),
            )
            else (true, s)
      ]

  unfoldable pub handle_invite : Bytes → Bytes → Bytes → ChatService → Bool × ChatService
  handle_invite now from_id payload s =
      elim (invite_guards s.identity.client_id from_id payload s.db) [
        | none ↦ (false, s)
        | some msg ↦ store_invite now from_id msg s
      ]
