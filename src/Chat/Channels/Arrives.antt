-- ===== src/Chat/Channels/Arrives.antt =====
-- src/chat/channel: the messages of the owner of a channel, from its sender to the handler of a member.
use plain_rs.Common.{
  ◌<◌, ◌≡◌, refl, ap, ◌∙◌, Bool, true, false, [], none, some, Bytes, All, length, arith, is_empty,
  str_eq_iff, str_eq_refl,
}
use plain_rs.Common.Int.{ℤ, ltb_ℤ}
use plain_rs.Crypto.{DalekLaws, ed25519_sign}
use plain_rs.Chat.Enums.{
  DeviceType, ChannelStatus, ChannelSystemMessageType, ChannelSystemMessageAction,
}
use plain_rs.Chat.Messages.{
  ReadsBack, ChannelInvite, ChannelUpdate, channel_message_payload, encode_members, decode_members,
}
use plain_rs.Chat.Rows.{DPeer, DChannel, ChatDb, get_peer_by_id, get_channel_by_id}
use plain_rs.Chat.Service.{Externals, ChatService, send_event}
use plain_rs.Chat.Service.Caches.{load_key_cache}
use plain_rs.Chat.Sender.{own_public_key, build_member_peers, update_message, invite_message}
use plain_rs.Chat.Handler.{handle, dispatch}
use plain_rs.Chat.Handler.Steps.{create_peers, verify_channel_signature}
use plain_rs.Chat.Handler.Member.{handle_update, update_guards, updated}
use plain_rs.Chat.Handler.Invite.{
  handle_invite, invite_guards, store_invite, invited, invite_received,
}
use plain_rs.Chat.Handler.Frames.{
  channels-create_peers, get_channel_by_id_frame, get_channel_by_id-insert_channel_new,
}
use plain_rs.Chat.Channels.Handled.{db-handle, handle_answer}
use plain_rs.Chat.Channels.Roster.{get_channel_by_id_written, decode_members-encode_members}
use plain_rs.Chat.Channels.Sealed.{verify_channel_signature_signed}
use plain_rs.Chat.Signing.{own_public_key_nonempty}

ltb_irrefl : (v : ℤ) → ltb_ℤ v v ≡ false
ltb_irrefl v = ground arith

-- An update that is not later than the row is refused.
update_stale :
    (ext : Externals) (from_id payload : Bytes) (db : ChatDb) (msg : ChannelUpdate) (ch : DChannel)
    → ext.update_json.from_str payload ≡ some msg
    → get_channel_by_id db msg.channel_id ≡ some ch
    → ltb_ℤ ch.version msg.version ≡ false
    → update_guards ext from_id payload db ≡ none
unfolding update_guards
update_stale ext from_id payload db msg ch hp hc hv = ground arith

-- The key pair of the owner, with which every message can be signed.
module _ (ext : Externals) (laws : DalekLaws ext.dalek) (reads : ReadsBack ext.members_json)
    (kp : Bytes) (size : length kp ≡ 64) (bytes : All (λ b. b < 256) kp)
    (signs : (message : Bytes)
      → (signature : Bytes) × (ext.dalek.signs kp message ≡ some signature))
    (client_id device_name : Bytes) (device_type : DeviceType) (db : ChatDb) (ch : DChannel)
    (now own : Bytes) (s : ChatService) (p : DPeer)
    (known : get_peer_by_id s.db client_id ≡ some p) where
  verified :
      (message : Bytes)
      → verify_channel_signature ext (own_public_key kp) message (ed25519_sign ext.dalek kp message)
        ≡ true
  verified message =
      verify_channel_signature_signed ext laws kp size bytes message (signs message).0
        (signs message).1

  abbrev the_update : ChannelUpdate
  the_update = update_message ext ch client_id device_name device_type kp db

  update_passes :
      ReadsBack ext.update_json
      → (mine : DChannel) → get_channel_by_id s.db ch.id ≡ some mine
      → mine.owner_id ≡ client_id
      → p.public_key ≡ own_public_key kp
      → ltb_ℤ mine.version ch.version ≡ true
      → update_guards ext client_id (ext.update_json.to_string the_update) s.db
        ≡ some (the_update, mine)
  unfolding update_guards update_message
  update_passes ru mine hm ho hk hv = ground (
    arith,
    ru the_update,
    known,
    str_eq_iff mine.owner_id client_id,
    verified (channel_message_payload ch.id ch.version ChannelSystemMessageAction.update []),
  )

  abbrev update_handled : Bool × ChatService
  update_handled =
      handle ext now client_id ChannelSystemMessageType.update
        (ext.update_json.to_string the_update) own s

  -- The update that the owner of a channel broadcasts, at a member whose row of the channel is older
  -- and who holds the public key of the owner: the row takes over the name, the roster and the version
  -- of the owner's, and the same update right after it is refused. The key pair of the owner can sign.
  pub update_arrives :
      ReadsBack ext.update_json
      → (mine : DChannel) → get_channel_by_id s.db ch.id ≡ some mine
      → mine.owner_id ≡ client_id
      → p.public_key ≡ own_public_key kp
      → ltb_ℤ mine.version ch.version ≡ true
      → (update_handled.0 ≡ true)
        × ((row : DChannel) × (get_channel_by_id update_handled.1.db ch.id ≡ some row)
            × (row.name ≡ ch.name)
            × (decode_members ext.members_json row.members
                ≡ decode_members ext.members_json ch.members)
            × (row.version ≡ ch.version))
        × ((handle ext now client_id ChannelSystemMessageType.update
              (ext.update_json.to_string the_update)
              own
              update_handled.1).0
            ≡ false)
  unfolding updated update_message dispatch handle_update encode_members
  update_arrives ru mine hm ho hk hv =
      let payload = ext.update_json.to_string the_update in
      let passed = update_passes ru mine hm ho hk hv in
      let row = updated ext now the_update mine in
      let read : get_channel_by_id update_handled.1.db ch.id ≡ some row =
        ap (λ db. get_channel_by_id db ch.id)
          (db-handle ext now client_id payload own s ChannelSystemMessageType.update)
        ∙ rw (passed, handle_update)
            (get_channel_by_id_written mine row s.db
              (create_peers now client_id the_update.member_peers s.db) ch.id hm refl refl
              (channels-create_peers now client_id the_update.member_peers s.db)) in
      (
        handle_answer ext now client_id payload own s ChannelSystemMessageType.update
            ∙ rw (passed, handle_update) refl,
        (
          row,
          read,
          refl,
          decode_members-encode_members ext.members_json reads
              (decode_members ext.members_json ch.members),
          refl,
        ),
        handle_answer ext now client_id payload own update_handled.1 ChannelSystemMessageType.update
            ∙ rw
                (
                  update_stale ext client_id payload update_handled.1.db the_update row
                      (ru the_update) read (ltb_irrefl ch.version),
                  handle_update,
                )
                refl,
      )

  abbrev the_invite : DPeer → ChannelInvite
  the_invite peer = invite_message ext ch peer client_id device_name device_type kp db

  invite_passes :
      ReadsBack ext.invite_json
      → (peer : DPeer) → peer.id ≡ s.identity.client_id
      → is_empty ch.id ≡ false
      → invite_guards ext s.identity.client_id client_id
          (ext.invite_json.to_string (the_invite peer))
          s.db
        ≡ some (the_invite peer)
  unfolding invite_guards invite_message build_member_peers
  invite_passes ri peer hp hn = ground (
    arith,
    ri (the_invite peer),
    known,
    str_eq_refl client_id,
    own_public_key_nonempty ext.dalek laws kp size bytes [] (signs []).0 (signs []).1,
    verified (channel_message_payload ch.id ch.version ChannelSystemMessageAction.invite peer.id),
  )

  abbrev invite_handled : DPeer → Bool × ChatService
  invite_handled peer =
      handle ext now client_id ChannelSystemMessageType.invite
        (ext.invite_json.to_string (the_invite peer)) own s

  -- The invite that the owner of a channel sends to a peer, at that peer, which knows the owner and
  -- has no channel of the id: the peer has the channel afterwards, joined, of that owner, with the
  -- name, the key, the roster and the version of the owner's. The key pair of the owner can sign.
  pub invite_arrives :
      ReadsBack ext.invite_json
      → (peer : DPeer) → peer.id ≡ s.identity.client_id
      → is_empty ch.id ≡ false
      → get_channel_by_id s.db ch.id ≡ none
      → ((invite_handled peer).0 ≡ true)
        × ((row : DChannel) × (get_channel_by_id (invite_handled peer).1.db ch.id ≡ some row)
            × (row.status ≡ ChannelStatus.joined)
            × (row.owner_id ≡ client_id)
            × (row.name ≡ ch.name)
            × (row.key ≡ ch.key)
            × (decode_members ext.members_json row.members
                ≡ decode_members ext.members_json ch.members)
            × (row.version ≡ ch.version))
  unfolding invited invite_message dispatch handle_invite encode_members store_invite
      invite_received load_key_cache send_event
  invite_arrives ri peer hp hn hc =
      let payload = ext.invite_json.to_string (the_invite peer) in
      let passed = invite_passes ri peer hp hn in
      let row = invited ext now client_id (the_invite peer) in
      let read : get_channel_by_id (invite_handled peer).1.db ch.id ≡ some row =
        ap (λ db. get_channel_by_id db ch.id)
          (db-handle ext now client_id payload own s ChannelSystemMessageType.invite)
        ∙ rw (passed, handle_invite)
            (rw (hc, store_invite)
              (get_channel_by_id-insert_channel_new row
                (create_peers now client_id (the_invite peer).member_peers s.db)
                (get_channel_by_id_frame s.db
                    (create_peers now client_id (the_invite peer).member_peers s.db) ch.id
                    (channels-create_peers now client_id (the_invite peer).member_peers s.db)
                  ∙ hc))) in
      (
        handle_answer ext now client_id payload own s ChannelSystemMessageType.invite
            ∙ rw (passed, handle_invite) (rw (hc, store_invite) refl),
        (
          row,
          read,
          refl,
          refl,
          refl,
          refl,
          decode_members-encode_members ext.members_json reads
              (decode_members ext.members_json ch.members),
          refl,
        ),
      )
