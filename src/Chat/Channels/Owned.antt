-- ===== src/Chat/Channels/Owned.antt =====
-- src/chat/service.rs: the messages of other peers, one after the other, and a channel of our own.
use plain_rs.Common.{
  subst, ℕ, suc, ◌≡◌, ◌≢◌, refl, sym, ap, ◌∙◌, true, false, List, [], ◌∷◌, some, Bytes, All, length,
  arith,
}
use plain_rs.Common.Int.{pos, i64_max, i64_add_one_parts, leb_ℤ, ◌≤ℤ◌, ◌+ℤ◌, +ℤ_parts}
use plain_rs.Utils.Base64.{base64_decode}
use plain_rs.Chat.Enums.{ChannelSystemMessageType, ChannelStatus, is_gone}
use plain_rs.Chat.Rows.{DChannel, get_channel_by_id}
use plain_rs.Chat.Service.{Externals, ChatIdentity, ChatService, emit_channels_updated, send_event}
use plain_rs.Chat.Service.Caches.{load_key_cache, refresh_peer_key_cache}
use plain_rs.Chat.Handler.Steps.{with_roster, spawn_broadcast}
use plain_rs.Chat.Handler.Member.{handle_update, handle_kick}
use plain_rs.Chat.Handler.Owner.{handle_invite_accept, handle_invite_decline, handle_leave}
use plain_rs.Chat.Handler.Invite.{handle_invite, store_invite, invite_received}
use plain_rs.Chat.Handler.{handle, dispatch, receive_peer_channel_system_message}
use plain_rs.Chat.Channels.Effect.{ChannelStep, stays, rostered, renewed, expelled, returned}
use plain_rs.Chat.Channels.Handled.{handle-steps}

-- A message as it is received.
pub record Received : Type 0 where
  pub now : Bytes
  pub from_id : Bytes
  pub msg_type : ChannelSystemMessageType
  pub payload : Bytes

module _ (ext : Externals) where
  unfoldable pub receive_all : List Received → ChatService → ChatService
  receive_all [] s = s
  receive_all (m ∷ ms) s =
      receive_all ms
        (receive_peer_channel_system_message ext m.now m.from_id m.msg_type m.payload s).1

-- The channel `ch'` is the channel `ch` of our own, at most `n` versions later.
pub record IsOwned (me : Bytes) (n : ℕ) (ch ch' : DChannel) : Type 0 where
  pub id : ch'.id ≡ ch.id
  pub owner : ch'.owner_id ≡ me
  pub status : ch'.status ≡ ChannelStatus.joined
  pub key : ch'.key ≡ ch.key
  pub not_before : ch.version ≤ℤ ch'.version
  pub not_beyond : ch'.version ≤ℤ ch.version +ℤ pos n

gone_not_joined : (c : ChannelStatus) → is_gone c ≡ true → c ≢ ChannelStatus.joined
gone_not_joined ChannelStatus.joined g = cc
gone_not_joined ChannelStatus.left g = cc
gone_not_joined ChannelStatus.kicked g = cc

module _ {ext : Externals} {now me from_id : Bytes} where
  ChannelStep-IsOwned :
      {ch ch' : DChannel}
      → ChannelStep ext now me from_id ch ch'
      → from_id ≢ me
      → ch.owner_id ≡ me
      → ch.status ≡ ChannelStatus.joined
      → leb_ℤ (pos i64_max) ch.version ≡ false
      → IsOwned me 1 ch ch'
  unfolding with_roster
  ChannelStep-IsOwned {ch} stays hf o j h =
      let parts = +ℤ_parts ch.version (pos 1) in
      record {
        id = refl;
        owner = o;
        status = j;
        key = refl;
        not_before = omega arith;
        not_beyond = ground (arith, parts);
      }
  ChannelStep-IsOwned {ch} (rostered ms _ _) hf o j h =
      let up = i64_add_one_parts ch.version h in
      let parts = +ℤ_parts ch.version (pos 1) in
      record {
        id = refl;
        owner = o;
        status = j;
        key = refl;
        not_before = ground (arith, up, parts);
        not_beyond = ground (arith, up, parts);
      }
  ChannelStep-IsOwned (renewed msg f v) hf o j h = absurd (hf (sym f ∙ o))
  ChannelStep-IsOwned (expelled f) hf o j h = absurd (hf (sym f ∙ o))
  ChannelStep-IsOwned {ch} (returned msg r) hf o j h = absurd (gone_not_joined ch.status r j)

IsOwned-refl :
    (me : Bytes) (ch : DChannel)
    → ch.owner_id ≡ me
    → ch.status ≡ ChannelStatus.joined
    → IsOwned me 0 ch ch
IsOwned-refl me ch o j =
    let parts = +ℤ_parts ch.version (pos 0) in
    record {
      id = refl;
      owner = o;
      status = j;
      key = refl;
      not_before = omega arith;
      not_beyond = ground (arith, parts);
    }

IsOwned-trans :
    (me : Bytes) (n : ℕ) (a b c : DChannel)
    → IsOwned me 1 a b
    → IsOwned me n b c
    → IsOwned me (suc n) a c
IsOwned-trans me n a b c h k =
    let first = +ℤ_parts a.version (pos 1) in
    let next = +ℤ_parts b.version (pos n) in
    let both = +ℤ_parts a.version (pos (suc n)) in
    record {
      id = k.id ∙ h.id;
      owner = k.owner;
      status = k.status;
      key = k.key ∙ h.key;
      not_before = ground (arith, h.not_before, k.not_before);
      not_beyond = ground (arith, h.not_beyond, k.not_beyond, first, next, both);
    }

module _ (ext : Externals) (now from_id : Bytes) where
  -- A message leaves the identity of the peer alone.
  identity-dispatch :
      (payload kp_bytes : Bytes) (msg_type : ChannelSystemMessageType) (s : ChatService)
      → (dispatch ext now from_id msg_type payload kp_bytes s).1.identity ≡ s.identity
  unfolding dispatch handle_update handle_kick handle_invite_accept handle_invite_decline
      handle_leave handle_invite store_invite invite_received send_event load_key_cache
      refresh_peer_key_cache spawn_broadcast
  identity-dispatch payload kp_bytes ChannelSystemMessageType.invite s = ground arith
  identity-dispatch payload kp_bytes ChannelSystemMessageType.invite_accept s = ground arith
  identity-dispatch payload kp_bytes ChannelSystemMessageType.invite_decline s = ground arith
  identity-dispatch payload kp_bytes ChannelSystemMessageType.update s = ground arith
  identity-dispatch payload kp_bytes ChannelSystemMessageType.kick s = ground arith
  identity-dispatch payload kp_bytes ChannelSystemMessageType.leave s = ground arith

module _ (ext : Externals) where
  after : Received → ChatService → ChatService
  after m s = (receive_peer_channel_system_message ext m.now m.from_id m.msg_type m.payload s).1

  identity-after : (m : Received) (s : ChatService) → (after m s).identity ≡ s.identity
  unfolding after receive_peer_channel_system_message handle emit_channels_updated send_event
  identity-after m s = ground (
    arith,
    identity-dispatch ext m.now m.from_id m.payload (base64_decode s.identity.ed25519_keypair)
        m.msg_type s,
  )

  db-after :
      (m : Received) (s : ChatService)
      → (after m s).db
        ≡ (handle ext m.now m.from_id m.msg_type m.payload
            (base64_decode s.identity.ed25519_keypair)
            s).1.db
  unfolding after receive_peer_channel_system_message emit_channels_updated send_event
  db-after m s = refl

  IsOwned-receive_all :
      (me : Bytes) (ms : List Received) (s : ChatService) (id : Bytes) (ch : DChannel)
      → s.identity.client_id ≡ me
      → All (λ (m : Received). m.from_id ≢ me) ms
      → get_channel_by_id s.db id ≡ some ch
      → ch.owner_id ≡ me
      → ch.status ≡ ChannelStatus.joined
      → (ch.version +ℤ pos (length ms)) ≤ℤ pos i64_max
      → (ch' : DChannel) × (get_channel_by_id (receive_all ext ms s).db id ≡ some ch')
        × IsOwned me (length ms) ch ch'
  unfolding receive_all after
  IsOwned-receive_all me [] s id ch i hm h o j hv = (ch, h, IsOwned-refl me ch o j)
  IsOwned-receive_all me (m ∷ ms) s id ch i (hf, hm) h o j hv =
      let kp = base64_decode s.identity.ed25519_keypair in
      let (one, (e, st)) = handle-steps ext m.now m.from_id m.payload kp s m.msg_type id ch h in
      let below : leb_ℤ (pos i64_max) ch.version ≡ false =
        ground (arith, hv, +ℤ_parts ch.version (pos (length (m ∷ ms)))) in
      let step : IsOwned me 1 ch one =
        ChannelStep-IsOwned (subst (λ x. ChannelStep ext m.now x m.from_id ch one) i st) hf o j
          below in
      let parts = +ℤ_parts one.version (pos (length ms)) in
      let all = +ℤ_parts ch.version (pos (length (m ∷ ms))) in
      let next = +ℤ_parts ch.version (pos 1) in
      let (ch', e', k) =
        IsOwned-receive_all me ms (after m s) id one
          (ap (λ (x : ChatIdentity). x.client_id) (identity-after m s) ∙ i) hm
          (ap (λ db. get_channel_by_id db id) (db-after m s) ∙ e) step.owner step.status
          (ground (arith, step.not_beyond, hv, parts, all, next)) in
      (ch', e', IsOwned-trans me (length ms) ch one ch' step k)

  -- A channel of our own survives any messages of other peers: it stays there, joined and ours, with
  -- its key, and each message moves its version on by one at most. The version must not pass the
  -- greatest `i64` on the way.
  pub receive_all-IsOwned :
      (ms : List Received) (s : ChatService) (id : Bytes) (ch : DChannel)
      → All (λ (m : Received). m.from_id ≢ s.identity.client_id) ms
      → get_channel_by_id s.db id ≡ some ch
      → ch.owner_id ≡ s.identity.client_id
      → ch.status ≡ ChannelStatus.joined
      → (ch.version +ℤ pos (length ms)) ≤ℤ pos i64_max
      → (ch' : DChannel) × (get_channel_by_id (receive_all ext ms s).db id ≡ some ch')
        × IsOwned s.identity.client_id (length ms) ch ch'
  receive_all-IsOwned ms s id ch hm h o j hv =
      IsOwned-receive_all s.identity.client_id ms s id ch refl hm h o j hv
