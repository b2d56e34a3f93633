-- ===== src/Chat/Handler/Passed.antt =====
-- src/chat/channel/handler.rs: what holds once a handler has passed its early returns.
use plain_rs.Common.{
  ◌≡◌, refl, Bool, true, false, some, Bytes, str_eq_iff, arith, Option-cases, inl, inr,
}
use plain_rs.Common.Int.{ltb_ℤ}
use plain_rs.Chat.Messages.{ChannelInviteAccept, ChannelUpdate, has_member, decode_members}
use plain_rs.Chat.Rows.{DChannel, ChatDb, get_channel_by_id}
use plain_rs.Chat.Rows.Laws.{get_channel_by_id_id}
use plain_rs.Chat.Service.{Externals}
use plain_rs.Chat.Handler.Steps.{ensure}
use plain_rs.Chat.Handler.Owner.{accept_guards, decline_guards, leave_guards}
use plain_rs.Chat.Handler.Member.{update_guards, kick_guards}

pub ensure_eq : (b : Bool) {u : Unit {0}} → ensure b ≡ some u → b ≡ true
ensure_eq true h = refl
ensure_eq false h = cc

module _ (ext : Externals) (client_id from_id payload : Bytes) (db : ChatDb) where
  pub accept_guards_passed :
      (msg : ChannelInviteAccept) (ch : DChannel)
      → accept_guards ext client_id payload db ≡ some (msg, ch)
      → (get_channel_by_id db ch.id ≡ some ch) × (ch.owner_id ≡ client_id)
  unfolding accept_guards
  accept_guards_passed msg ch h =
      ground (arith, get_channel_by_id_id db msg.channel_id ch, str_eq_iff ch.owner_id client_id)

  pub decline_guards_passed :
      (ch : DChannel)
      → decline_guards ext client_id from_id payload db ≡ some ch
      → (get_channel_by_id db ch.id ≡ some ch)
        × (ch.owner_id ≡ client_id)
        × (has_member (decode_members ext.members_json ch.members) from_id ≡ true)
  unfolding decline_guards
  decline_guards_passed ch h = elim (Option-cases (ext.decline_json.from_str payload)) [
    | inl e ↦ ground arith
    | inr (msg, e) ↦
        ground (arith, get_channel_by_id_id db msg.channel_id ch, str_eq_iff ch.owner_id client_id)
  ]

  pub update_guards_passed :
      (msg : ChannelUpdate) (ch : DChannel)
      → update_guards ext from_id payload db ≡ some (msg, ch)
      → (get_channel_by_id db ch.id ≡ some ch)
        × (ch.owner_id ≡ from_id)
        × (ltb_ℤ ch.version msg.version ≡ true)
  unfolding update_guards
  update_guards_passed msg ch h =
      ground (arith, get_channel_by_id_id db msg.channel_id ch, str_eq_iff ch.owner_id from_id)

  pub kick_guards_passed :
      (ch : DChannel)
      → kick_guards ext client_id from_id payload db ≡ some ch
      → (get_channel_by_id db ch.id ≡ some ch) × (ch.owner_id ≡ from_id)
  unfolding kick_guards
  kick_guards_passed ch h = elim (Option-cases (ext.kick_json.from_str payload)) [
    | inl e ↦ ground arith
    | inr (msg, e) ↦
        ground (arith, get_channel_by_id_id db msg.channel_id ch, str_eq_iff ch.owner_id from_id)
  ]

  pub leave_guards_passed :
      (ch : DChannel)
      → leave_guards ext client_id payload db ≡ some ch
      → (get_channel_by_id db ch.id ≡ some ch) × (ch.owner_id ≡ client_id)
  unfolding leave_guards
  leave_guards_passed ch h = elim (Option-cases (ext.leave_json.from_str payload)) [
    | inl e ↦ ground arith
    | inr (msg, e) ↦
        ground (arith, get_channel_by_id_id db msg.channel_id ch, str_eq_iff ch.owner_id client_id)
  ]
