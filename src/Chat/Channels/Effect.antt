-- ===== src/Chat/Channels/Effect.antt =====
-- src/chat/channel/handler.rs: the ways in which a message may change a row of a channel, as a step
-- relation, and the rows before and after a handler.
use plain_rs.Common.{
  ◌≡◌, refl, sym, ◌∙◌, ap, subst, true, List, [], ◌∷◌, is_empty, if◌then◌else◌, Option, some, Bytes,
  str_eq, str_eq_iff, Bool-cases, inl, inr, some_inj,
}
use plain_rs.Common.Int.{ltb_ℤ, i64_add_one}
use plain_rs.Chat.Enums.{is_gone, ChannelStatus}
use plain_rs.Chat.Messages.{
  ChannelMember, ChannelInvite, ChannelUpdate, encode_members, decode_members,
}
use plain_rs.Chat.Rows.{DChannel, ChatDb, get_channel_by_id, update_channel}
use plain_rs.Chat.Rows.Laws.{
  get_channel_by_id-update_channel, patched, map_option, get_channel_by_id_id,
}
use plain_rs.Chat.Service.{Externals}
use plain_rs.Chat.Handler.Frames.{get_channel_by_id_frame}

-- The roster without the entries of one peer.
abbrev pub others : Bytes → List ChannelMember → List ChannelMember
others id [] = []
others id (m ∷ ms) = if str_eq m.peer_id id then others id ms else m ∷ others id ms

-- The change of a row by one message from `from_id` at the peer `me`.
pub data ChannelStep (ext : Externals) (now me from_id : Bytes) : DChannel → DChannel → Type 0 where
  stays : {ch : DChannel} → ChannelStep ext now me from_id ch ch
  -- our own channel: another roster, which differs in the entry of the sender only, and the next version
  rostered :
      {ch : DChannel} (ms : List ChannelMember)
      → ch.owner_id ≡ me
      → others from_id ms ≡ others from_id (decode_members ext.members_json ch.members)
      → ChannelStep ext now me from_id ch (record ch {
        members = encode_members ext.members_json ms;
        version = i64_add_one ch.version;
        updated_at = now;
      })
  -- a channel of the sender: a later version of it
  renewed :
      {ch : DChannel} (msg : ChannelUpdate)
      → ch.owner_id ≡ from_id
      → ltb_ℤ ch.version msg.version ≡ true
      → ChannelStep ext now me from_id ch (record ch {
        name = msg.channel_name;
        members = encode_members ext.members_json msg.members;
        version = msg.version;
        updated_at = now;
      })
  -- a channel of the sender: the end of our membership, without our entry
  expelled :
      {ch : DChannel}
      → ch.owner_id ≡ from_id
      → ChannelStep ext now me from_id ch (record ch {
        status = ChannelStatus.kicked;
        members =
            encode_members ext.members_json
              (others me (decode_members ext.members_json ch.members));
        updated_at = now;
      })
  -- a channel that we are no longer in: ours to join again, as the invite of the sender says
  returned :
      {ch : DChannel} (msg : ChannelInvite)
      → is_gone ch.status ≡ true
      → ChannelStep ext now me from_id ch (record ch {
        name = msg.channel_name;
        owner_id = from_id;
        members = encode_members ext.members_json msg.members;
        key = if is_empty msg.key then ch.key else msg.key;
        version = msg.version;
        status = ChannelStatus.joined;
        updated_at = now;
      })

-- The row of an id after a message, and the step to it.
abbrev pub StepsTo : Externals → Bytes → Bytes → Bytes → DChannel → Option DChannel → Type 0
StepsTo ext now me from_id ch o =
    (ch' : DChannel) × ((o ≡ some ch') × ChannelStep ext now me from_id ch ch')

module _ (ext : Externals) (now me from_id : Bytes) where
  pub StepsTo-same :
      (ch : DChannel) (o : Option DChannel) → o ≡ some ch → StepsTo ext now me from_id ch o
  StepsTo-same ch o h = (ch, (h, stays))

  -- The write of one changed row is a step of that row, and leaves the others.
  pub StepsTo-update :
      (old new : DChannel) (db db' : ChatDb)
      → new.id ≡ old.id
      → new.created_at ≡ old.created_at
      → ChannelStep ext now me from_id old new
      → get_channel_by_id db old.id ≡ some old
      → db'.channels ≡ db.channels
      → (id : Bytes) (ch : DChannel) → get_channel_by_id db id ≡ some ch
      → StepsTo ext now me from_id ch (get_channel_by_id (update_channel new db') id)
  StepsTo-update old new db db' hid hat st hold hframe id ch h =
      let same : get_channel_by_id (update_channel new db') id ≡ some (patched new ch) =
        get_channel_by_id-update_channel new db' id
        ∙ ap (map_option (patched new)) (get_channel_by_id_frame db db' id hframe ∙ h) in
      elim (Bool-cases (str_eq ch.id new.id)) [
        | inl e ↦
            let ids : ch.id ≡ old.id = (str_eq_iff ch.id new.id).0 e ∙ hid in
            let at : id ≡ old.id = sym (get_channel_by_id_id db id ch h) ∙ ids in
            let eq : ch ≡ old = some_inj (sym h ∙ (ap (get_channel_by_id db) at ∙ hold)) in
            let at_new : ch.created_at ≡ new.created_at =
              ap (λ (c : DChannel). c.created_at) eq ∙ sym hat in
            let row : some (patched new ch) ≡ some new =
              rw (e) (ap (λ t. some (record new { created_at = t })) at_new) in
            (new, (same ∙ row, subst (λ c. ChannelStep ext now me from_id c new) (sym eq) st))
        | inr e ↦ StepsTo-same ch _ (same ∙ rw (e) refl)
      ]
