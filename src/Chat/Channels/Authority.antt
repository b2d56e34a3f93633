-- ===== src/Chat/Channels/Authority.antt =====
-- src/chat/channel/handler.rs: who may change a channel, and how its version moves.
use plain_rs.Common.{◌≡◌, ◌≢◌, refl, ap, ◌∙◌, false, some, Bytes, arith}
use plain_rs.Common.Int.{pos, i64_max, i64_add_one_parts, leb_ℤ, ◌≤ℤ◌, +ℤ_parts}
use plain_rs.Chat.Enums.{ChannelSystemMessageType, is_gone}
use plain_rs.Chat.Rows.{DChannel, get_channel_by_id}
use plain_rs.Chat.Service.{Externals, ChatService}
use plain_rs.Chat.Handler.Steps.{with_roster}
use plain_rs.Chat.Handler.Member.{updated, kicked_from}
use plain_rs.Chat.Handler.{handle}
use plain_rs.Chat.Channels.Effect.{ChannelStep, stays, rostered, renewed, expelled, returned}
use plain_rs.Chat.Channels.Handled.{handle-steps}

module _ {ext : Externals} {now me from_id : Bytes} where
  pub ChannelStep-authority :
      {ch ch' : DChannel}
      → ChannelStep ext now me from_id ch ch'
      → is_gone ch.status ≡ false
      → ch.owner_id ≢ me
      → ch.owner_id ≢ from_id
      → ch' ≡ ch
  ChannelStep-authority stays g hm hf = refl
  ChannelStep-authority (rostered ms o e) g hm hf = absurd (hm o)
  ChannelStep-authority (renewed msg o v) g hm hf = absurd (hf o)
  ChannelStep-authority (expelled o) g hm hf = absurd (hf o)
  ChannelStep-authority (returned msg r) g hm hf = cc

  -- The version grows, but not the other way round; the owner and the key stay.
  pub ChannelStep-version :
      {ch ch' : DChannel}
      → ChannelStep ext now me from_id ch ch'
      → is_gone ch.status ≡ false
      → leb_ℤ (pos i64_max) ch.version ≡ false
      → (ch.version ≤ℤ ch'.version) × (ch'.owner_id ≡ ch.owner_id) × (ch'.key ≡ ch.key)
  unfolding with_roster updated kicked_from
  ChannelStep-version {ch} stays g h = (omega arith, refl, refl)
  ChannelStep-version {ch} (rostered ms o e) g h =
      (ground (arith, +ℤ_parts ch.version (pos 1), i64_add_one_parts ch.version h), refl, refl)
  ChannelStep-version {ch} (renewed msg o v) g h = (ground arith, refl, refl)
  ChannelStep-version {ch} (expelled o) g h = (omega arith, refl, refl)
  ChannelStep-version (returned msg r) g h = cc

module _ (ext : Externals) (now from_id payload kp_bytes : Bytes) (s : ChatService) where
  -- A channel that the peer is in and that neither it nor the sender owns stays as it was, whatever
  -- the sender sends.
  pub handle_authority :
      (msg_type : ChannelSystemMessageType) (id : Bytes) (ch : DChannel)
      → get_channel_by_id s.db id ≡ some ch
      → is_gone ch.status ≡ false
      → ch.owner_id ≢ s.identity.client_id
      → ch.owner_id ≢ from_id
      → get_channel_by_id (handle ext now from_id msg_type payload kp_bytes s).1.db id ≡ some ch
  handle_authority msg_type id ch h g hm hf =
      let (ch', (e, st)) = handle-steps ext now from_id payload kp_bytes s msg_type id ch h in
      e ∙ ap some (ChannelStep-authority st g hm hf)

  -- No message makes the version of a channel that the peer is in go down, or gives the channel
  -- another owner or key, if the version is not the greatest `i64`.
  pub handle_version :
      (msg_type : ChannelSystemMessageType) (id : Bytes) (ch : DChannel)
      → get_channel_by_id s.db id ≡ some ch
      → is_gone ch.status ≡ false
      → leb_ℤ (pos i64_max) ch.version ≡ false
      → (ch' : DChannel) × (get_channel_by_id
            (handle ext now from_id msg_type payload kp_bytes s).1.db
            id
          ≡ some ch')
        × (ch.version ≤ℤ ch'.version)
        × (ch'.owner_id ≡ ch.owner_id)
        × (ch'.key ≡ ch.key)
  handle_version msg_type id ch h g hv =
      let (ch', (e, st)) = handle-steps ext now from_id payload kp_bytes s msg_type id ch h in
      let v = ChannelStep-version st g hv in (ch', e, v.0, v.1, v.2)
