-- ===== src/Chat/Channels/Roster.antt =====
-- src/chat/channel/handler.rs: the roster of a channel of our own after the answer of a member.
use plain_rs.Common.{
  ◌≡◌, refl, sym, ap, subst, ◌∙◌, Bool, true, false, List, [], ◌∷◌, some, Bytes, arith, str_eq,
  str_eq_iff, str_eq_refl, is_empty,
}
use plain_rs.Common.Int.{i64_add_one}
use plain_rs.Chat.Enums.{ChannelSystemMessageType}
use plain_rs.Chat.Messages.{
  ReadsBack, ChannelMember, ChannelInviteAccept, ChannelInviteDecline, ChannelLeave, encode_members,
  decode_members, has_member, find_member, new_member, Json,
}
use plain_rs.Chat.Rows.{DChannel, ChatDb, get_channel_by_id, update_channel}
use plain_rs.Chat.Rows.Laws.{get_channel_by_id-update_channel, map_option, patched}
use plain_rs.Chat.Service.{Externals, ChatService}
use plain_rs.Chat.Service.Caches.{load_key_cache}
use plain_rs.Chat.Handler.Steps.{join_member, without_member, with_roster, accepter_peer}
use plain_rs.Chat.Handler.Owner.{
  handle_invite_accept, handle_invite_decline, handle_leave, accept_guards, decline_guards,
  leave_guards,
}
use plain_rs.Chat.Handler.{handle, dispatch}
use plain_rs.Chat.Channels.Handled.{db-handle}
use plain_rs.Chat.Handler.Frames.{
  channels-accepter_peer, get_channel_by_id_frame, db-spawn_broadcast,
}

-- A roster that was written is read back.
pub decode_members-encode_members :
    (json : Json (List ChannelMember))
    → ReadsBack json
    → (ms : List ChannelMember) → decode_members json (encode_members json ms) ≡ ms
unfolding decode_members encode_members
decode_members-encode_members json h ms = ground (arith, h ms)

pub find_member-join_member :
    (id : Bytes) (ms : List ChannelMember)
    → find_member (join_member id ms) id ≡ some (new_member id)
unfolding find_member join_member new_member
find_member-join_member id [] = ground (arith, str_eq_refl id)
find_member-join_member id (m ∷ ms) =
    ground (arith, str_eq_iff m.peer_id id, find_member-join_member id ms)

pub has_member-without_member :
    (id : Bytes) (ms : List ChannelMember) → has_member (without_member id ms) id ≡ false
unfolding has_member without_member
has_member-without_member id [] = refl
has_member-without_member id (m ∷ ms) = ground (arith, has_member-without_member id ms)

-- A row that is written over the row of its id is read.
pub get_channel_by_id_written :
    (old new : DChannel) (db db' : ChatDb) (id : Bytes)
    → get_channel_by_id db id ≡ some old
    → new.id ≡ old.id
    → new.created_at ≡ old.created_at
    → db'.channels ≡ db.channels
    → get_channel_by_id (update_channel new db') id ≡ some new
get_channel_by_id_written old new db db' id h hid hat hf =
    let hit : str_eq old.id new.id ≡ true = (str_eq_iff old.id new.id).1 (sym hid) in
    get_channel_by_id-update_channel new db' id
    ∙ (ap (map_option (patched new)) (get_channel_by_id_frame db db' id hf ∙ h)
        ∙ rw (hit) (ap (λ t. some (record new { created_at = t })) (sym hat)))

module _ (ext : Externals) (reads : ReadsBack ext.members_json)
    (now from_id payload kp_bytes : Bytes) (s : ChatService) (ch : DChannel)
    (ours : ch.owner_id ≡ s.identity.client_id) where
  abbrev pub after : ChannelSystemMessageType → Bool × ChatService
  after msg_type = handle ext now from_id msg_type payload kp_bytes s

  accept_passes :
      (msg : ChannelInviteAccept)
      → ext.accept_json.from_str payload ≡ some msg
      → is_empty msg.channel_id ≡ false
      → get_channel_by_id s.db msg.channel_id ≡ some ch
      → accept_guards ext s.identity.client_id payload s.db ≡ some (msg, ch)
  unfolding accept_guards
  accept_passes msg hp hn hc = ground (arith, str_eq_iff ch.owner_id s.identity.client_id)

  decline_passes :
      (msg : ChannelInviteDecline)
      → ext.decline_json.from_str payload ≡ some msg
      → get_channel_by_id s.db msg.channel_id ≡ some ch
      → has_member (decode_members ext.members_json ch.members) from_id ≡ true
      → decline_guards ext s.identity.client_id from_id payload s.db ≡ some ch
  unfolding decline_guards
  decline_passes msg hp hc hm = ground (arith, str_eq_iff ch.owner_id s.identity.client_id)

  leave_passes :
      (msg : ChannelLeave)
      → ext.leave_json.from_str payload ≡ some msg
      → get_channel_by_id s.db msg.channel_id ≡ some ch
      → leave_guards ext s.identity.client_id payload s.db ≡ some ch
  unfolding leave_guards
  leave_passes msg hp hc = ground (arith, str_eq_iff ch.owner_id s.identity.client_id)

  -- The answer, and the next version of the channel, whose roster is `P`.
  abbrev pub Rosters : Bytes → Bool × ChatService → (List ChannelMember → Type 0) → Type 0
  Rosters id r P =
      (r.0 ≡ true)
      × ((ch' : DChannel) × (get_channel_by_id r.1.db id ≡ some ch')
          × (ch'.version ≡ i64_add_one ch.version)
          × P (decode_members ext.members_json ch'.members))

  rosters :
      (msg_type : ChannelSystemMessageType) (id : Bytes) (ms : List ChannelMember)
      (P : List ChannelMember → Type 0)
      → (dispatch ext now from_id msg_type payload kp_bytes s).0 ≡ true
      → get_channel_by_id (dispatch ext now from_id msg_type payload kp_bytes s).1.db id
        ≡ some (with_roster ext now ms ch)
      → P ms
      → Rosters id (after msg_type) P
  unfolding handle with_roster
  rosters msg_type id ms P ok e p =
      let row : DChannel = with_roster ext now ms ch in
      let read =
        ap (λ db. get_channel_by_id db id) (db-handle ext now from_id payload kp_bytes s msg_type)
        ∙ e in
      let roster = subst P (sym (decode_members-encode_members ext.members_json reads ms)) p in
      (ok, (row, read, refl, roster))

  -- A member that accepts the invite to a channel of our own is joined afterwards, in the next version
  -- of the channel.
  pub accept_joins :
      (msg : ChannelInviteAccept)
      → ext.accept_json.from_str payload ≡ some msg
      → is_empty msg.channel_id ≡ false
      → get_channel_by_id s.db msg.channel_id ≡ some ch
      → Rosters msg.channel_id
          (after ChannelSystemMessageType.invite_accept)
          (λ ms. find_member ms from_id ≡ some (new_member from_id))
  unfolding dispatch handle_invite_accept load_key_cache with_roster
  accept_joins msg hp hn hc =
      let e = accept_passes msg hp hn hc in
      let written =
        get_channel_by_id_written ch
          (with_roster ext now (join_member from_id (decode_members ext.members_json ch.members))
            ch)
          s.db (accepter_peer now from_id msg s.db) msg.channel_id hc refl refl
          (channels-accepter_peer now from_id msg s.db) in
      rosters ChannelSystemMessageType.invite_accept msg.channel_id
        (join_member from_id (decode_members ext.members_json ch.members))
        (λ ms. find_member ms from_id ≡ some (new_member from_id))
        (rw (e, handle_invite_accept) refl)
        (rw (e, handle_invite_accept, db-spawn_broadcast _ kp_bytes _) written)
        (find_member-join_member from_id (decode_members ext.members_json ch.members))

  -- A member that declines the invite to a channel of our own is not on the roster afterwards, in the
  -- next version of the channel.
  pub decline_removes :
      (msg : ChannelInviteDecline)
      → ext.decline_json.from_str payload ≡ some msg
      → get_channel_by_id s.db msg.channel_id ≡ some ch
      → has_member (decode_members ext.members_json ch.members) from_id ≡ true
      → Rosters msg.channel_id
          (after ChannelSystemMessageType.invite_decline)
          (λ ms. has_member ms from_id ≡ false)
  unfolding dispatch handle_invite_decline with_roster
  decline_removes msg hp hc hm =
      let e = decline_passes msg hp hc hm in
      let ms = without_member from_id (decode_members ext.members_json ch.members) in
      rosters ChannelSystemMessageType.invite_decline msg.channel_id ms
        (λ ms. has_member ms from_id ≡ false) (rw (e, handle_invite_decline) refl)
        (rw (e, handle_invite_decline)
          (get_channel_by_id_written ch (with_roster ext now ms ch) s.db s.db msg.channel_id hc refl
            refl refl))
        (has_member-without_member from_id (decode_members ext.members_json ch.members))

  -- A member that leaves a channel of our own is not on the roster afterwards, in the next version of
  -- the channel.
  pub leave_removes :
      (msg : ChannelLeave)
      → ext.leave_json.from_str payload ≡ some msg
      → get_channel_by_id s.db msg.channel_id ≡ some ch
      → Rosters msg.channel_id
          (after ChannelSystemMessageType.leave)
          (λ ms. has_member ms from_id ≡ false)
  unfolding dispatch handle_leave with_roster
  leave_removes msg hp hc =
      let e = leave_passes msg hp hc in
      let ms = without_member from_id (decode_members ext.members_json ch.members) in
      rosters ChannelSystemMessageType.leave msg.channel_id ms (λ ms. has_member ms from_id ≡ false)
        (rw (e, handle_leave) refl)
        (rw (e, handle_leave, db-spawn_broadcast _ kp_bytes _)
          (get_channel_by_id_written ch (with_roster ext now ms ch) s.db s.db msg.channel_id hc refl
            refl refl))
        (has_member-without_member from_id (decode_members ext.members_json ch.members))
