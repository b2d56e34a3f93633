-- ===== src/Chat/Handler/Owner.antt =====
-- src/chat/channel/handler.rs: the messages that the owner of a channel handles: a member accepts or
-- declines the invite, or leaves.
use plain_rs.Common.{Bool, true, false, not, Option, none, some, Bytes, str_eq, is_empty, ◌>>=◌}
use plain_rs.Chat.Messages.{ChannelInviteAccept, decode_members, has_member}
use plain_rs.Chat.Rows.{DChannel, ChatDb, get_channel_by_id, update_channel}
use plain_rs.Chat.Service.{Externals, ChatService}
use plain_rs.Chat.Service.Caches.{load_key_cache}
use plain_rs.Chat.Handler.Steps.{
  ensure, accepter_peer, join_member, without_member, spawn_broadcast, set_db, with_roster,
}

module _ (ext : Externals) where
  unfoldable pub accept_guards : Bytes → Bytes → ChatDb → Option (ChannelInviteAccept × DChannel)
  accept_guards client_id payload db = do
    msg ← ext.accept_json.from_str payload
    _ ← ensure (not (is_empty msg.channel_id))
    ch ← get_channel_by_id db msg.channel_id
    _ ← ensure (str_eq ch.owner_id client_id)
    some (msg, ch)

  unfoldable pub handle_invite_accept :
      Bytes → Bytes → Bytes → Bytes → ChatService → Bool × ChatService
  handle_invite_accept now from_id payload kp_bytes s =
      elim (accept_guards s.identity.client_id payload s.db) [
        | none ↦ (false, s)
        | some (msg, ch) ↦
            let members = join_member from_id (decode_members ext.members_json ch.members) in
            let ch' = with_roster ext now members ch in
            (
              true,
              spawn_broadcast ch' kp_bytes (
                  load_key_cache
                    (set_db (update_channel ch' (accepter_peer now from_id msg s.db)) s)),
            )
      ]

  unfoldable pub decline_guards : Bytes → Bytes → Bytes → ChatDb → Option DChannel
  decline_guards client_id from_id payload db = do
    msg ← ext.decline_json.from_str payload
    ch ← get_channel_by_id db msg.channel_id
    _ ← ensure (str_eq ch.owner_id client_id)
    _ ← ensure (has_member (decode_members ext.members_json ch.members) from_id)
    some ch

  unfoldable pub handle_invite_decline : Bytes → Bytes → Bytes → ChatService → Bool × ChatService
  handle_invite_decline now from_id payload s =
      elim (decline_guards s.identity.client_id from_id payload s.db) [
        | none ↦ (false, s)
        | some ch ↦ (
          true,
          set_db
              (update_channel
                (with_roster ext now
                  (without_member from_id (decode_members ext.members_json ch.members)) ch)
                s.db)
              s,
        )
      ]

  unfoldable pub leave_guards : Bytes → Bytes → ChatDb → Option DChannel
  leave_guards client_id payload db = do
    msg ← ext.leave_json.from_str payload
    ch ← get_channel_by_id db msg.channel_id
    _ ← ensure (str_eq ch.owner_id client_id)
    some ch

  unfoldable pub handle_leave : Bytes → Bytes → Bytes → Bytes → ChatService → Bool × ChatService
  handle_leave now from_id payload kp_bytes s =
      elim (leave_guards s.identity.client_id payload s.db) [
        | none ↦ (false, s)
        | some ch ↦
            let members = without_member from_id (decode_members ext.members_json ch.members) in
            let ch' = with_roster ext now members ch in
            (true, spawn_broadcast ch' kp_bytes (set_db (update_channel ch' s.db) s))
      ]
