-- ===== src/Chat/Channels/Handled.antt =====
-- src/chat/channel/handler.rs: a message changes every row of a channel by one step, or not at all.
use plain_rs.Common.{
  ◌≡◌, refl, ◌∙◌, ap, List, [], ◌∷◌, str_eq_refl, Bool, false, some, Bytes, Option-cases,
  Bool-cases, inl, inr, arith,
}
use plain_rs.Chat.Enums.{ChannelSystemMessageType, is_gone}
use plain_rs.Chat.Messages.{ChannelInvite, ChannelMember, decode_members, new_member}
use plain_rs.Chat.Rows.{DChannel, get_channel_by_id}
use plain_rs.Chat.Rows.Laws.{get_channel_by_id_id}
use plain_rs.Chat.Service.{Externals, ChatService, emit_channels_updated, send_event}
use plain_rs.Chat.Service.Caches.{load_key_cache}
use plain_rs.Chat.Handler.Steps.{with_roster, join_member, without_member}
use plain_rs.Chat.Handler.Invite.{
  handle_invite, invite_guards, store_invite, reinvited, invited, invite_received,
}
use plain_rs.Chat.Handler.Owner.{
  handle_invite_accept, handle_invite_decline, handle_leave, accept_guards, decline_guards,
  leave_guards,
}
use plain_rs.Chat.Handler.Member.{
  handle_update, handle_kick, updated, kicked_from, update_guards, kick_guards,
}
use plain_rs.Chat.Handler.{handle, dispatch}
use plain_rs.Chat.Handler.Passed.{
  accept_guards_passed, decline_guards_passed, update_guards_passed, kick_guards_passed,
  leave_guards_passed,
}
use plain_rs.Chat.Handler.Frames.{
  channels-create_peers, channels-accepter_peer, get_channel_by_id_frame,
  get_channel_by_id-insert_channel, db-spawn_broadcast,
}
use plain_rs.Chat.Channels.Effect.{
  others, rostered, renewed, expelled, returned, StepsTo, StepsTo-same, StepsTo-update,
}

without_member-others : (id : Bytes) (ms : List ChannelMember) → without_member id ms ≡ others id ms
unfolding without_member
without_member-others id [] = refl
without_member-others id (m ∷ ms) = ground (arith, without_member-others id ms)

others-without_member :
    (id : Bytes) (ms : List ChannelMember) → others id (without_member id ms) ≡ others id ms
unfolding without_member
others-without_member id [] = refl
others-without_member id (m ∷ ms) = ground (arith, others-without_member id ms)

others-join_member :
    (id : Bytes) (ms : List ChannelMember) → others id (join_member id ms) ≡ others id ms
unfolding join_member new_member
others-join_member id [] = ground (arith, str_eq_refl id)
others-join_member id (m ∷ ms) = ground (arith, others-join_member id ms)

module _ (ext : Externals) (now from_id payload kp_bytes : Bytes) (s : ChatService) where
  abbrev me : Bytes
  me = s.identity.client_id

  abbrev Handles : Bool × ChatService → Type 0
  Handles r =
      (id : Bytes) (ch : DChannel)
      → get_channel_by_id s.db id ≡ some ch
      → StepsTo ext now me from_id ch (get_channel_by_id r.1.db id)

  refused : Handles (false, s)
  refused id ch h = StepsTo-same ext now me from_id ch (get_channel_by_id s.db id) h

  handle_invite_accept-Handles : Handles (handle_invite_accept ext now from_id payload kp_bytes s)
  unfolding handle_invite_accept with_roster load_key_cache
  handle_invite_accept-Handles id ch h = elim (Option-cases (accept_guards ext me payload s.db)) [
    | inl e ↦ rw (e, handle_invite_accept) (refused id ch h)
    | inr ((msg, old), e) ↦
        let p = accept_guards_passed ext me from_id payload s.db msg old e in
        let st =
          rostered (join_member from_id (decode_members ext.members_json old.members)) p.1
            (others-join_member from_id (decode_members ext.members_json old.members)) in
        rw (e, handle_invite_accept, db-spawn_broadcast _ kp_bytes _)
          (StepsTo-update ext now me from_id old _ s.db _ refl refl st p.0
            (channels-accepter_peer now from_id msg s.db) id ch h)
  ]

  handle_invite_decline-Handles : Handles (handle_invite_decline ext now from_id payload s)
  unfolding handle_invite_decline with_roster
  handle_invite_decline-Handles id ch h =
      elim (Option-cases (decline_guards ext me from_id payload s.db)) [
        | inl e ↦ rw (e, handle_invite_decline) (refused id ch h)
        | inr (old, e) ↦
            let p = decline_guards_passed ext me from_id payload s.db old e in
            let st =
              rostered (without_member from_id (decode_members ext.members_json old.members)) p.1
                (others-without_member from_id (decode_members ext.members_json old.members)) in
            rw (e, handle_invite_decline)
              (StepsTo-update ext now me from_id old _ s.db s.db refl refl st p.0 refl id ch h)
      ]

  handle_update-Handles : Handles (handle_update ext now from_id payload s)
  unfolding handle_update updated
  handle_update-Handles id ch h = elim (Option-cases (update_guards ext from_id payload s.db)) [
    | inl e ↦ rw (e, handle_update) (refused id ch h)
    | inr ((msg, old), e) ↦
        let p = update_guards_passed ext me from_id payload s.db msg old e in
        rw (e, handle_update)
          (StepsTo-update ext now me from_id old _ s.db _ refl refl (renewed msg p.1 p.2) p.0
            (channels-create_peers now from_id msg.member_peers s.db) id ch h)
  ]

  handle_kick-Handles : Handles (handle_kick ext now from_id payload s)
  unfolding handle_kick kicked_from
  handle_kick-Handles id ch h = elim (Option-cases (kick_guards ext me from_id payload s.db)) [
    | inl e ↦ rw (e, handle_kick) (refused id ch h)
    | inr (old, e) ↦
        let p = kick_guards_passed ext me from_id payload s.db old e in
        rw (e, handle_kick, without_member-others me (decode_members ext.members_json old.members))
          (StepsTo-update ext now me from_id old _ s.db s.db refl refl (expelled p.1) p.0 refl id ch
            h)
  ]

  handle_leave-Handles : Handles (handle_leave ext now from_id payload kp_bytes s)
  unfolding handle_leave with_roster
  handle_leave-Handles id ch h = elim (Option-cases (leave_guards ext me payload s.db)) [
    | inl e ↦ rw (e, handle_leave) (refused id ch h)
    | inr (old, e) ↦
        let p = leave_guards_passed ext me from_id payload s.db old e in
        let st =
          rostered (without_member from_id (decode_members ext.members_json old.members)) p.1
            (others-without_member from_id (decode_members ext.members_json old.members)) in
        rw (e, handle_leave, db-spawn_broadcast _ kp_bytes _)
          (StepsTo-update ext now me from_id old _ s.db s.db refl refl st p.0 refl id ch h)
  ]

  store_invite-Handles : (msg : ChannelInvite) → Handles (store_invite ext now from_id msg s)
  unfolding store_invite invite_received reinvited load_key_cache send_event
  store_invite-Handles msg id ch h = elim (Option-cases (get_channel_by_id s.db msg.channel_id)) [
    | inl e ↦
        let kept =
          get_channel_by_id_frame s.db _ id
            (channels-create_peers now from_id msg.member_peers s.db)
          ∙ h in
        rw (e, store_invite)
          (StepsTo-same ext now me from_id ch _
            (get_channel_by_id-insert_channel (invited ext now from_id msg) _ id ch kept))
    | inr (old, e) ↦ elim (Bool-cases (is_gone old.status)) [
      | inl g ↦
          let at = get_channel_by_id_id s.db msg.channel_id old e in
          rw (e, g, store_invite)
            (StepsTo-update ext now me from_id old _ s.db _ refl refl (returned msg g)
              (ap (get_channel_by_id s.db) at ∙ e)
              (channels-create_peers now from_id msg.member_peers s.db) id ch h)
      | inr g ↦ rw (e, g, store_invite) (refused id ch h)
    ]
  ]

  handle_invite-Handles : Handles (handle_invite ext now from_id payload s)
  unfolding handle_invite
  handle_invite-Handles id ch h = elim (Option-cases (invite_guards ext me from_id payload s.db)) [
    | inl e ↦ rw (e, handle_invite) (refused id ch h)
    | inr (msg, e) ↦ rw (e, handle_invite) (store_invite-Handles msg id ch h)
  ]

  dispatch-Handles :
      (msg_type : ChannelSystemMessageType)
      → Handles (dispatch ext now from_id msg_type payload kp_bytes s)
  unfolding dispatch
  dispatch-Handles ChannelSystemMessageType.invite = handle_invite-Handles
  dispatch-Handles ChannelSystemMessageType.invite_accept = handle_invite_accept-Handles
  dispatch-Handles ChannelSystemMessageType.invite_decline = handle_invite_decline-Handles
  dispatch-Handles ChannelSystemMessageType.update = handle_update-Handles
  dispatch-Handles ChannelSystemMessageType.kick = handle_kick-Handles
  dispatch-Handles ChannelSystemMessageType.leave = handle_leave-Handles

  pub db-handle :
      (msg_type : ChannelSystemMessageType)
      → (handle ext now from_id msg_type payload kp_bytes s).1.db
        ≡ (dispatch ext now from_id msg_type payload kp_bytes s).1.db
  unfolding handle emit_channels_updated send_event
  db-handle msg_type = ground arith

  pub handle_answer :
      (msg_type : ChannelSystemMessageType)
      → (handle ext now from_id msg_type payload kp_bytes s).0
        ≡ (dispatch ext now from_id msg_type payload kp_bytes s).0
  unfolding handle
  handle_answer msg_type = refl

  -- Whatever the message, each channel that was there is there afterwards, and is either the same row
  -- or a row that one step makes of it.
  pub handle-steps :
      (msg_type : ChannelSystemMessageType) (id : Bytes) (ch : DChannel)
      → get_channel_by_id s.db id ≡ some ch
      → StepsTo ext now s.identity.client_id from_id ch
          (get_channel_by_id (handle ext now from_id msg_type payload kp_bytes s).1.db id)
  handle-steps msg_type id ch h = rw (db-handle msg_type) (dispatch-Handles msg_type id ch h)
