-- ===== src/Examples/Delivery.antt =====
-- src/chat: messages of the owner of a channel, and a chat item, on concrete peers.
use plain_rs.Common.{
  List, ◌<◌, ◌≡◌, ◌↔◌, ◌⊎◌, refl, Bool, true, false, [], ◌∷◌, none, some, Bytes, codes, All, arith,
  str_eq, drop, if◌then◌else◌,
}
use plain_rs.Common.Int.{pos}
use plain_rs.Library.Tables.{contains}
use plain_rs.Chat.Enums.{
  ok, err, DeviceType, ChannelStatus, ChannelSystemMessageType, ChannelSystemMessageAction,
  peer_status_of, peer_status_text, device_type_of, device_type_text,
  channel_system_message_type_text, channel_system_message_action_text,
}
use plain_rs.Chat.Messages.{decode_members, channel_message_payload, decimal, digits}
use plain_rs.Chat.Rows.{
  DPeer, DChannel, new_peer, row_to_peer, get_peer_by_id, get_channel_by_id, joined_member_ids,
}
use plain_rs.Chat.Service.{ChatService, Delivery}
use plain_rs.Chat.Delivery.{deliver_type}
use plain_rs.Chat.Sender.{kick_message, send_kick, broadcast_kick, update_message, invite_message}
use plain_rs.Chat.Handler.{handle}
use plain_rs.Chat.Transport.{
  Wire, accepted, deliver_to_peer, deliver_channel_system_message, signed_request,
  peer_graphql_urls,
}
use plain_rs.Chat.Transport.Answered.{Arrives, delivered_iff_answered}
use plain_rs.Chat.Relay.{ChannelDeliveryResult, send, status, no_leader}
use plain_rs.Chat.Relay.Status.{Outcomes, but, send_lem}
use plain_rs.Chat.Channels.Arrives.{update_arrives, invite_arrives}
use plain_rs.Chat.Channels.Dissolved.{receives, kick_target}
use plain_rs.Examples.Wire.{
  the_externals, the_dalek, the_dalek-DalekLaws, members-ReadsBack, invite-ReadsBack,
  update-ReadsBack, kick-ReadsBack, fingerprint, All-repeat,
}
use plain_rs.Examples.Channels.{the_kp, owner, theirs, the_service, knows_theirs, knows_owner}

kp_bytes : All (λ b. b < 256) the_kp
kp_bytes = All-repeat 64 7 (omega arith)

-- The channel as its owner has it by now.
abbrev newer : DChannel
newer = record theirs { name = codes "News"; version = pos 2 }

abbrev the_update_json : Bytes
the_update_json = the_externals.update_json.to_string (
    update_message the_externals newer (codes "a") (codes "Ann") DeviceType.phone the_kp
      the_service.db)

abbrev updated_service : Bool × ChatService
updated_service =
    handle the_externals [] (codes "a") ChannelSystemMessageType.update the_update_json []
      the_service

update_arrives_example :
    (updated_service.0 ≡ true)
    × ((row : DChannel) × (get_channel_by_id updated_service.1.db (codes "c") ≡ some row)
        × (row.name ≡ codes "News")
        × (decode_members the_externals.members_json row.members
            ≡ decode_members the_externals.members_json newer.members)
        × (row.version ≡ pos 2))
    × ((handle the_externals []
          (codes "a")
          ChannelSystemMessageType.update
          the_update_json
          []
          updated_service.1).0
        ≡ false)
update_arrives_example =
    update_arrives the_externals the_dalek-DalekLaws members-ReadsBack the_kp refl kp_bytes
      (λ message. (fingerprint message, refl)) (codes "a") (codes "Ann") DeviceType.phone
      the_service.db newer [] [] the_service owner knows_owner update-ReadsBack theirs knows_theirs
      refl refl refl

-- The peer before it has any channel.
abbrev newcomer : ChatService
newcomer = record the_service { db = record the_service.db { channels = [] } }

abbrev bob : DPeer
bob = record owner { id = codes "b" }

no_channel : get_channel_by_id newcomer.db (codes "c") ≡ none
unfolding get_channel_by_id
no_channel = refl

abbrev invited_service : Bool × ChatService
invited_service =
    handle the_externals [] (codes "a") ChannelSystemMessageType.invite
      (the_externals.invite_json.to_string (
        invite_message the_externals newer bob (codes "a") (codes "Ann") DeviceType.phone the_kp
          the_service.db))
      [] newcomer

knows_owner_too : get_peer_by_id newcomer.db (codes "a") ≡ some owner
unfolding get_peer_by_id row_to_peer peer_status_of peer_status_text device_type_of device_type_text
    new_peer str_eq
knows_owner_too = refl

invite_arrives_example :
    (invited_service.0 ≡ true)
    × ((row : DChannel) × (get_channel_by_id invited_service.1.db (codes "c") ≡ some row)
        × (row.status ≡ ChannelStatus.joined)
        × (row.owner_id ≡ codes "a")
        × (row.name ≡ codes "News")
        × (row.key ≡ [])
        × (decode_members the_externals.members_json row.members
            ≡ decode_members the_externals.members_json newer.members)
        × (row.version ≡ pos 2))
invite_arrives_example =
    invite_arrives the_externals the_dalek-DalekLaws members-ReadsBack the_kp refl kp_bytes
      (λ message. (fingerprint message, refl)) (codes "a") (codes "Ann") DeviceType.phone
      the_service.db newer [] [] newcomer owner knows_owner_too invite-ReadsBack bob refl refl
      no_channel

-- The signature for no target is not that for the target `b`.
other_target :
    the_dalek.verifies
      (drop 32 the_kp)
      (channel_message_payload (codes "c") (pos 1) ChannelSystemMessageAction.kick (codes "b"))
      (fingerprint (channel_message_payload (codes "c") (pos 1) ChannelSystemMessageAction.kick []))
    ≡ false
unfolding channel_message_payload channel_system_message_action_text decimal digits str_eq
other_target = refl

-- The kick of `b`, as the owner sends it.
abbrev kick_of_bob : Delivery
kick_of_bob = record {
  peer = bob;
  key = [];
  client_id = codes "a";
  kp_bytes = the_kp;
  msg_type = channel_system_message_type_text ChannelSystemMessageType.kick;
  payload =
      the_externals.kick_json.to_string
        (kick_message the_externals theirs.id theirs.version bob.id the_kp);
  channel_id = some (codes "c");
}

sends_kick :
    send_kick the_externals theirs.id theirs.version bob (codes "a") the_kp [] [] ≡ some kick_of_bob
unfolding send_kick deliver_type new_peer
sends_kick = refl

abbrev received_by_bob : Delivery → Bool × ChatService
received_by_bob =
    receives the_externals the_dalek-DalekLaws kick-ReadsBack the_kp refl kp_bytes
      (λ message. (fingerprint message, refl)) [] [] the_service theirs owner knows_owner refl
      knows_theirs (pos 1)

kick_target_example :
    ((row : DChannel) × (get_channel_by_id (received_by_bob kick_of_bob).1.db (codes "c")
        ≡ some row)
      × (row.status ≡ ChannelStatus.kicked))
    × All
        (λ d. received_by_bob d ≡ (false, the_service))
        (broadcast_kick the_externals theirs
          (codes "a")
          the_kp
          (record the_service.db { peers = bob ∷ [] })
          []
          [])
kick_target_example =
    kick_target the_externals the_dalek-DalekLaws kick-ReadsBack the_kp refl kp_bytes
      (λ message. (fingerprint message, refl)) [] [] the_service theirs owner knows_owner refl
      knows_theirs (pos 1) theirs bob (record the_service.db { peers = bob ∷ [] }) [] (codes "a") []
      kick_of_bob refl refl refl sends_kick (λ apart. other_target) refl

-- A client that reaches the address `x` alone, and a cipher that is none.
abbrev the_wire : Wire
the_wire = record {
  dalek = the_dalek;
  encrypt = λ key plain. some plain;
  decrypt = λ key encrypted. some encrypted;
  post = λ url client_id channel_id body.
      if str_eq url (codes "x") then ok body else err (codes "no route");
  chat_item_request = λ content. content;
  system_message_request = λ msg_type payload. payload;
  read_response = λ response. some accepted;
}

send_lem_example :
    ((contains (joined_member_ids the_externals.members_json theirs) (codes "b") ≡ true)
      × ((rs : List ChannelDeliveryResult) × (send the_wire the_externals.members_json
              (pos 0)
              theirs
              (codes "b")
              []
              the_service.db
              []
              the_kp
            ≡ status rs)
          × Outcomes the_wire the_externals.members_json
              (pos 0)
              theirs
              (codes "b")
              []
              the_service.db
              []
              the_kp
              (but (codes "b") (joined_member_ids the_externals.members_json theirs))
              rs))
    ⊎ ((contains (joined_member_ids the_externals.members_json theirs) (codes "b") ≡ false)
        × (send the_wire the_externals.members_json
              (pos 0)
              theirs
              (codes "b")
              []
              the_service.db
              []
              the_kp
            ≡ no_leader))
send_lem_example =
    send_lem the_wire the_externals.members_json (pos 0) theirs (codes "b") [] the_service.db []
      the_kp

delivered_iff_answered_example :
    ((deliver_to_peer the_wire
          (pos 7)
          (codes "y" ∷ codes "x" ∷ [])
          []
          (codes "b")
          the_kp
          (codes "hi")
          none
        ≡ ok tt)
      ↔ Arrives the_wire []
          (codes "b")
          none
          (signed_request the_wire the_kp (pos 7) (codes "hi"))
          (codes "y" ∷ codes "x" ∷ []))
    × ((deliver_channel_system_message the_wire
            (pos 7)
            bob
            []
            (codes "b")
            the_kp
            (codes "t")
            []
            none
          ≡ true)
        ↔ Arrives the_wire []
            (codes "b")
            none
            (signed_request the_wire the_kp (pos 7) [])
            (peer_graphql_urls bob))
delivered_iff_answered_example =
    delivered_iff_answered the_wire [] (codes "b") none (pos 7) (codes "y" ∷ codes "x" ∷ []) the_kp
      (codes "hi") bob (codes "t") []
