-- ===== src/Chat/Ops.antt =====
-- src/chat/channel/ops.rs: the operations on channels that the user starts. `now` is the time that a
-- call reads.
use plain_rs.Common.{
  Bool, true, not, List, [], ◌∷◌, Option, none, some, Bytes, codes, str_eq, if◌then◌else◌, trim,
  ◌++◌,
}
use plain_rs.Common.Int.{pos, i64_add_one}
use plain_rs.Utils.Base64.{base64_encode, base64_decode}
use plain_rs.Chat.Enums.{Result, ok, err, ChannelStatus}
use plain_rs.Chat.Messages.{encode_members, decode_members, has_member, new_member, pending_member}
use plain_rs.Chat.Rows.{
  DPeer, DChannel, ChatDb, get_peer_by_id, get_channel_by_id, insert_channel, update_channel,
}
use plain_rs.Chat.Rows
use plain_rs.Chat.Rows.Chats.{delete_chats_by_channel}
use plain_rs.Chat.Service.{Externals, ChatService, Delivery, deliver, emit_channels_updated}
use plain_rs.Chat.Service.Caches.{load_key_cache, refresh_peer_key_cache}
use plain_rs.Chat.Handler.Steps.{set_db, without_member, with_roster}
use plain_rs.Chat.Sender.{
  broadcast_update, broadcast_kick, send_kick, send_leave, send_invite, send_invite_accept,
  send_invite_decline,
}

-- `DChannel::new`, with the random id as an argument.
unfoldable pub new_channel : Bytes → Bytes → Bytes → Bytes → DChannel
new_channel now id name owner = record {
  id = id;
  name = name;
  owner_id = owner;
  members = codes "[]";
  key = [];
  version = pos 1;
  status = ChannelStatus.joined;
  created_at = now;
  updated_at = now;
}

abbrev pub keypair : ChatService → Bytes
keypair s = base64_decode s.identity.ed25519_keypair

-- A message to a peer, if there is one to send.
abbrev pub to_list {ℓ} : {A : Type ℓ} → Option A → List A
to_list none = []
to_list (some a) = a ∷ []

-- A message to the peer of an id, if it is known.
abbrev pub to_peer : (DPeer → Option Delivery) → Option DPeer → List Delivery
to_peer send none = []
to_peer send (some p) = to_list (send p)

unfoldable pub renamed : Bytes → Bytes → DChannel → DChannel
renamed now name ch = record ch {
  name = trim name;
  version = i64_add_one ch.version;
  updated_at = now;
}

module _ (ext : Externals) where
  -- The id and the key are random, and arguments here.
  unfoldable pub create_channel :
      Bytes → Bytes → Bytes → Bytes → ChatService → DChannel × ChatService
  create_channel now id random_key name s =
      let ch : DChannel = record (new_channel now id (trim name) s.identity.client_id) {
        members = encode_members ext.members_json (new_member s.identity.client_id ∷ []);
        key = base64_encode random_key;
      } in
      (ch, emit_channels_updated ext (set_db (insert_channel ch s.db) s))

  -- The broadcast of a channel by its owner.
  unfoldable pub announce : DChannel → ChatService → ChatService
  announce ch s =
      deliver
        (broadcast_update ext ch s.identity.client_id s.identity.device_name s.wire_device_type
          (keypair s) s.db s.peer_key_cache (base64_decode ch.key))
        s

  unfoldable pub update_channel_name :
      Bytes → Bytes → Bytes → ChatService → Result DChannel × ChatService
  update_channel_name now id name s = elim (get_channel_by_id s.db id) [
    | none ↦ (err (codes "Channel not found"), s)
    | some ch ↦
        let ch' = renamed now name ch in
        let s' = set_db (update_channel ch' s.db) s in
        (
          ok ch',
          emit_channels_updated ext
              (if str_eq ch.owner_id s.identity.client_id then announce ch' s' else s'),
        )
  ]

  -- The owner tells the members of a channel that it is gone.
  unfoldable pub dissolve : DChannel → ChatService → ChatService
  dissolve ch s =
      deliver
        (broadcast_kick ext ch s.identity.client_id (keypair s) s.db s.peer_key_cache
          (base64_decode ch.key))
        s

  -- The row is marked as left before it is deleted.
  unfoldable pub mark_left : Bytes → DChannel → ChatDb → ChatDb
  mark_left now ch = update_channel (record ch { status = ChannelStatus.left; updated_at = now })

  unfoldable pub delete_channel : Bytes → Bytes → ChatService → Bool × ChatService
  delete_channel now id s =
      let s' : ChatService = elim (get_channel_by_id s.db id) [
        | none ↦ s
        | some ch ↦
            let told = if str_eq ch.owner_id s.identity.client_id then dissolve ch s else s in
            set_db (mark_left now ch told.db) told
      ] in
      (
        true,
        emit_channels_updated ext (
            refresh_peer_key_cache
              (set_db (Rows.delete_channel id (delete_chats_by_channel id s'.db)) s')),
      )

  unfoldable pub left_channel : Bytes → Bytes → DChannel → DChannel
  left_channel now client_id ch = record ch {
    members =
        encode_members ext.members_json
          (without_member client_id (decode_members ext.members_json ch.members));
    status = ChannelStatus.left;
    updated_at = now;
  }

  unfoldable pub leave_channel : Bytes → Bytes → ChatService → Bool × ChatService
  leave_channel now id s = elim (get_channel_by_id s.db id) [
    | none ↦ (true, s)
    | some ch ↦
        let sent =
          deliver
            (to_peer
              (λ owner_peer.
                send_leave ext ch.id owner_peer s.identity.client_id (keypair s)
                  (base64_decode ch.key) s.peer_key_cache)
              (get_peer_by_id s.db ch.owner_id))
            s in
        let gone =
          refresh_peer_key_cache
            (set_db (update_channel (left_channel now s.identity.client_id ch) s.db) sent) in
        (
          true,
          emit_channels_updated ext (if str_eq ch.owner_id s.identity.client_id then s else gone),
        )
  ]

  unfoldable pub add_channel_member :
      Bytes → Bytes → Bytes → ChatService → Result DChannel × ChatService
  add_channel_member now id peer_id s = elim (get_channel_by_id s.db id) [
    | none ↦ (err (codes "Channel not found"), s)
    | some ch ↦
        let members = decode_members ext.members_json ch.members in
        let ch' = with_roster ext now (members ++ (pending_member peer_id ∷ [])) ch in
        let s' = set_db (update_channel ch' s.db) s in
        if not (str_eq ch.owner_id s.identity.client_id)
        then (err (codes "Only owner can add members"), s)
        else if has_member members peer_id
        then (err (codes "Already a member"), s)
        else (
          ok ch',
          emit_channels_updated ext (
              deliver
                (to_peer
                  (λ peer.
                    send_invite ext ch' peer s.identity.client_id s.identity.device_name
                      s.wire_device_type (keypair s) s'.db s.peer_key_cache (base64_decode ch.key))
                  (get_peer_by_id s'.db peer_id))
                s'),
        )
  ]

  unfoldable pub remove_channel_member :
      Bytes → Bytes → Bytes → ChatService → Result DChannel × ChatService
  remove_channel_member now id peer_id s = elim (get_channel_by_id s.db id) [
    | none ↦ (err (codes "Channel not found"), s)
    | some ch ↦
        let members = decode_members ext.members_json ch.members in
        let ch' = with_roster ext now (without_member peer_id members) ch in
        let s' = set_db (update_channel ch' s.db) s in
        if not (str_eq ch.owner_id s.identity.client_id)
        then (err (codes "Only owner can remove members"), s)
        else if not (has_member members peer_id)
        then (err (codes "Not a member"), s)
        else (
          ok ch',
          emit_channels_updated ext (
              announce ch' (
                deliver
                  (to_peer
                    (λ peer.
                      send_kick ext ch.id ch'.version peer s.identity.client_id (keypair s)
                        (base64_decode ch.key) s.peer_key_cache)
                    (get_peer_by_id s'.db peer_id))
                  s')),
        )
  ]

  unfoldable pub accept_channel_invite : Bytes → ChatService → Result Bool × ChatService
  accept_channel_invite id s = elim (get_channel_by_id s.db id) [
    | none ↦ (err (codes "Channel not found"), s)
    | some ch ↦ elim (get_peer_by_id s.db ch.owner_id) [
      | none ↦ (err (codes "Owner peer not found"), s)
      | some owner_peer ↦
          let s' = load_key_cache s in
          (
            ok true,
            deliver
                (to_list (
                  send_invite_accept ext ch.id owner_peer s.identity.client_id (keypair s)
                    s.identity.device_name s.wire_device_type (base64_decode ch.key)
                    s'.peer_key_cache))
                s',
          )
    ]
  ]

  unfoldable pub decline_channel_invite : Bytes → ChatService → Bool × ChatService
  decline_channel_invite id s = elim (get_channel_by_id s.db id) [
    | none ↦ (true, s)
    | some ch ↦
        let sent =
          deliver
            (to_peer
              (λ owner_peer.
                send_invite_decline ext ch.id owner_peer s.identity.client_id (keypair s)
                  (base64_decode ch.key) s.peer_key_cache)
              (get_peer_by_id s.db ch.owner_id))
            s in
        (
          true,
          emit_channels_updated ext (
              refresh_peer_key_cache
                (set_db (Rows.delete_channel ch.id (delete_chats_by_channel ch.id s.db)) sent)),
        )
  ]

  -- The answer is the flag itself.
  unfoldable pub respond_channel_invite : Bytes → Bool → ChatService → Bool × ChatService
  respond_channel_invite id accept s =
      (accept, if accept then (accept_channel_invite id s).1 else (decline_channel_invite id s).1)
