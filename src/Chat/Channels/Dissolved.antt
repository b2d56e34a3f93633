-- ===== src/Chat/Channels/Dissolved.antt =====
-- src/chat/channel: the kick of one member, and the kick that is broadcast when a channel is deleted.
use plain_rs.Common.{
  ◌+◌, ◌<◌, ◌≡◌, ◌≢◌, refl, str_eq_refl, ap, ◌∙◌, Bool, false, List, Option-cases, inl, inr, [],
  ◌∷◌, ◌++◌, none, some, Bytes, All, length, length-append, drop, arith, is_empty,
}
use plain_rs.Common.Int.{ℤ}
use plain_rs.Crypto.{DalekLaws}
use plain_rs.Chat.Enums.{
  ChannelStatus, ChannelSystemMessageType, ChannelSystemMessageAction,
  channel_system_message_action_text,
}
use plain_rs.Chat.Messages.{ReadsBack, channel_message_payload, bar, decimal}
use plain_rs.Chat.Rows.{DPeer, DChannel, ChatDb, get_peer_by_id, get_channel_by_id}
use plain_rs.Chat.Service.{Externals, ChatService, Delivery, KeyCache}
use plain_rs.Chat.Sender.{
  own_public_key, kick_message, send_kick, broadcast_kick, broadcast_kick_message,
  member_ids_excluding,
}
use plain_rs.Chat.Delivery.{deliver_type, deliver_all}
use plain_rs.Chat.Handler.{handle, dispatch}
use plain_rs.Chat.Handler.Member.{handle_kick, kick_guards, kicked_from}
use plain_rs.Chat.Channels.Handled.{db-handle, handle_answer}
use plain_rs.Chat.Channels.Refused.{handle_refused}
use plain_rs.Chat.Channels.Roster.{get_channel_by_id_written}
use plain_rs.Chat.Channels.Sealed.{verify_channel_signature_signed, verify_channel_signature_lem}

-- The payloads of two targets of different length differ.
payload_target :
    (id : Bytes) (version : ℤ) (action : ChannelSystemMessageAction) (a b : Bytes)
    → channel_message_payload id version action a ≡ channel_message_payload id version action b
    → length a ≡ length b
unfolding channel_message_payload
payload_target id version action a b h =
    let v = decimal version in
    let t = channel_system_message_action_text action in
    let size : (x : Bytes)
        → length (id ++ (bar ∷ (v ++ (bar ∷ (t ++ (bar ∷ x))))))
          ≡ length id + (length v + (length t + length x)) + 3 =
      λ x. omega (
        arith,
        length-append id (bar ∷ (v ++ (bar ∷ (t ++ (bar ∷ x))))),
        length-append v (bar ∷ (t ++ (bar ∷ x))),
        length-append t (bar ∷ x),
      ) in
    omega (arith, size a, size b, ap length h)

nonempty_length : (bs : Bytes) → is_empty bs ≡ false → length bs ≢ 0
nonempty_length [] h = cc
nonempty_length (b ∷ bs) h = λ e. absurd (omega (arith, e))

pair_eq : {b c : Bool} {s t : ChatService} → b ≡ c → s ≡ t → Path (Bool × ChatService) (b, s) (c, t)
pair_eq h k = cc

deliver_type_payload :
    (peer : DPeer) (client_id kp_bytes : Bytes) (msg_type : ChannelSystemMessageType)
    (payload channel_id channel_key : Bytes) (key_cache : KeyCache) (d : Delivery)
    → deliver_type peer client_id kp_bytes msg_type payload channel_id channel_key key_cache
      ≡ some d
    → d.payload ≡ payload
unfolding deliver_type
deliver_type_payload peer client_id kp_bytes msg_type payload channel_id channel_key key_cache d h =
    ground arith

-- Every message of a broadcast has its payload.
deliver_all_payload :
    (db : ChatDb) (client_id kp_bytes : Bytes) (msg_type : ChannelSystemMessageType)
    (payload channel_id channel_key : Bytes) (key_cache : KeyCache) (ids : List Bytes)
    → All
        (λ (d : Delivery). d.payload ≡ payload)
        (deliver_all db client_id kp_bytes msg_type payload channel_id channel_key key_cache ids)
unfolding deliver_all
deliver_all_payload db client_id kp_bytes msg_type payload channel_id channel_key key_cache [] = tt
deliver_all_payload db client_id kp_bytes msg_type payload channel_id channel_key key_cache
      (id ∷ ids) =
    let rest =
      deliver_all_payload db client_id kp_bytes msg_type payload channel_id channel_key key_cache
        ids in
    elim (Option-cases (get_peer_by_id db id)) [
      | inl e ↦ rw (e, deliver_all) rest
      | inr (peer, e) ↦
          elim (Option-cases (
            deliver_type peer client_id kp_bytes msg_type payload channel_id channel_key
              key_cache)) [
                | inl n ↦ rw (e, n, deliver_all) rest
                | inr (d, n) ↦
                    rw (e, n, deliver_all)
                      (
                        deliver_type_payload peer client_id kp_bytes msg_type payload channel_id
                            channel_key key_cache d n,
                        rest,
                      )
              ]
    ]

All-map :
    {A : Type 0} (P Q : A → Type 0) → ((a : A) → P a → Q a) → (xs : List A) → All P xs → All Q xs
All-map P Q f [] h = tt
All-map P Q f (x ∷ xs) (h, hs) = (f x h, All-map P Q f xs hs)

module _ (ext : Externals) (laws : DalekLaws ext.dalek) (reads : ReadsBack ext.kick_json)
    (kp : Bytes) (size : length kp ≡ 64) (bytes : All (λ b. b < 256) kp)
    (signs : (message : Bytes)
      → (signature : Bytes) × (ext.dalek.signs kp message ≡ some signature))
    (now own : Bytes) (s : ChatService) (ch : DChannel) (p : DPeer)
    (known : get_peer_by_id s.db ch.owner_id ≡ some p) (key : p.public_key ≡ own_public_key kp)
    (there : get_channel_by_id s.db ch.id ≡ some ch) (version : ℤ) where
  abbrev pub kicked_by : Bytes → Bool × ChatService
  kicked_by target =
      handle ext now ch.owner_id ChannelSystemMessageType.kick
        (ext.kick_json.to_string (kick_message ext ch.id version target kp)) own s

  abbrev signed_payload : Bytes → Bytes
  signed_payload target =
      channel_message_payload ch.id version ChannelSystemMessageAction.kick target

  kick_passes :
      kick_guards ext s.identity.client_id ch.owner_id
        (ext.kick_json.to_string (kick_message ext ch.id version s.identity.client_id kp))
        s.db
      ≡ some ch
  unfolding kick_guards kick_message
  kick_passes =
      let me = s.identity.client_id in
      let sg = signs (signed_payload me) in
      ground (
        arith,
        reads (kick_message ext ch.id version me kp),
        known,
        there,
        str_eq_refl ch.owner_id,
        verify_channel_signature_signed ext laws kp size bytes (signed_payload me) sg.0 sg.1,
      )

  kick_stops :
      (target : Bytes)
      → ext.dalek.verifies
          (drop 32 kp)
          (signed_payload s.identity.client_id)
          (signs (signed_payload target)).0
        ≡ false
      → kick_guards ext s.identity.client_id ch.owner_id
          (ext.kick_json.to_string (kick_message ext ch.id version target kp))
          s.db
        ≡ none
  unfolding kick_guards kick_message
  kick_stops target h =
      let me = s.identity.client_id in
      let sg = signs (signed_payload target) in
      ground (
        arith,
        reads (kick_message ext ch.id version target kp),
        known,
        there,
        str_eq_refl ch.owner_id,
        verify_channel_signature_lem ext laws kp size bytes (signed_payload target) sg.0 sg.1
            (signed_payload me),
      )

  kick_result :
      (signed_payload s.identity.client_id ≢ signed_payload []
        → ext.dalek.verifies
            (drop 32 kp)
            (signed_payload s.identity.client_id)
            (signs (signed_payload [])).0
          ≡ false)
      → is_empty s.identity.client_id ≡ false
      → ((row : DChannel) × (get_channel_by_id (kicked_by s.identity.client_id).1.db ch.id
            ≡ some row)
          × (row.status ≡ ChannelStatus.kicked))
        × (kicked_by [] ≡ (false, s))
  unfolding dispatch handle_kick kicked_from
  kick_result strict hn =
      let me = s.identity.client_id in
      let message : Bytes → Bytes =
        λ target. ext.kick_json.to_string (kick_message ext ch.id version target kp) in
      let row = kicked_from ext now me ch in
      let read =
        ap (λ db. get_channel_by_id db ch.id)
          (db-handle ext now ch.owner_id (message me) own s ChannelSystemMessageType.kick)
        ∙ rw (kick_passes, handle_kick)
            (get_channel_by_id_written ch row s.db s.db ch.id there refl refl refl) in
      let differs : signed_payload me ≢ signed_payload [] = λ e.
        nonempty_length me hn
          (payload_target ch.id version ChannelSystemMessageAction.kick me [] e) in
      let stopped = kick_stops [] (strict differs) in
      let answer : (kicked_by []).0 ≡ false =
        handle_answer ext now ch.owner_id (message []) own s ChannelSystemMessageType.kick
        ∙ rw (stopped, handle_kick) refl in
      let kept =
        handle_refused ext now ch.owner_id (message []) own s ChannelSystemMessageType.kick
          answer in
      ((row, read, refl), pair_eq answer kept)

  abbrev received : Bytes → Bool × ChatService
  received text = handle ext now ch.owner_id ChannelSystemMessageType.kick text own s

  -- What the member makes of a delivery of the owner.
  abbrev pub receives : Delivery → Bool × ChatService
  receives d = handle ext now ch.owner_id ChannelSystemMessageType.kick d.payload own s

  broadcast_payload :
      (channel : DChannel) (from_db : ChatDb) (key_cache : KeyCache) (client_id channel_key : Bytes)
      → All
          (λ d.
            d.payload ≡ ext.kick_json.to_string (kick_message ext channel.id channel.version [] kp))
          (broadcast_kick ext channel client_id kp from_db key_cache channel_key)
  unfolding broadcast_kick broadcast_kick_message kick_message
  broadcast_payload channel from_db key_cache client_id channel_key =
      deliver_all_payload from_db client_id kp ChannelSystemMessageType.kick
        (ext.kick_json.to_string (kick_message ext channel.id channel.version [] kp)) channel.id
        channel_key key_cache (member_ids_excluding ext channel client_id)

  send_kick_type :
      (channel : DChannel) (member : DPeer) (key_cache : KeyCache) (client_id channel_key : Bytes)
      (delivery : Delivery)
      → send_kick ext channel.id channel.version member client_id kp channel_key key_cache
        ≡ some delivery
      → deliver_type member client_id kp ChannelSystemMessageType.kick
          (ext.kick_json.to_string (kick_message ext channel.id channel.version member.id kp))
          channel.id
          channel_key
          key_cache
        ≡ some delivery
  unfolding send_kick
  send_kick_type channel member key_cache client_id channel_key delivery h = h

  -- A member that holds the public key of the owner takes the kick that `send_kick` makes for it, and is
  -- kicked from the channel; every kick that `broadcast_kick` makes, whatever the peers and the keys of
  -- the sender, it refuses, and stays as it was. The signature for the empty target verifies no other
  -- payload than its own, and the id of the member is not empty.
  pub kick_target :
      (channel : DChannel) (member : DPeer) (from_db : ChatDb) (key_cache : KeyCache)
      (client_id channel_key : Bytes) (delivery : Delivery)
      → channel.id ≡ ch.id
      → channel.version ≡ version
      → member.id ≡ s.identity.client_id
      → send_kick ext channel.id channel.version member client_id kp channel_key key_cache
        ≡ some delivery
      → (signed_payload s.identity.client_id ≢ signed_payload []
          → ext.dalek.verifies
              (drop 32 kp)
              (signed_payload s.identity.client_id)
              (signs (signed_payload [])).0
            ≡ false)
      → is_empty s.identity.client_id ≡ false
      → ((row : DChannel) × (get_channel_by_id (receives delivery).1.db ch.id ≡ some row)
          × (row.status ≡ ChannelStatus.kicked))
        × All
            (λ d. receives d ≡ (false, s))
            (broadcast_kick ext channel client_id kp from_db key_cache channel_key)
  kick_target channel member from_db key_cache client_id channel_key delivery hid hv hm sent strict
        hn =
      let r = kick_result strict hn in
      let own_payload =
        deliver_type_payload member client_id kp ChannelSystemMessageType.kick
          (ext.kick_json.to_string (kick_message ext channel.id channel.version member.id kp))
          channel.id channel_key key_cache delivery
          (send_kick_type channel member key_cache client_id channel_key delivery sent) in
      let text : delivery.payload
          ≡ ext.kick_json.to_string (kick_message ext ch.id version s.identity.client_id kp) =
        own_payload ∙ rw (hid, hv, hm) refl in
      (
        (r.0.0, ap (λ t. get_channel_by_id (received t).1.db ch.id) text ∙ r.0.1, r.0.2),
        All-map
            (λ d.
              d.payload
              ≡ ext.kick_json.to_string (kick_message ext channel.id channel.version [] kp))
            (λ d. receives d ≡ (false, s)) (λ d e. ap received (e ∙ rw (hid, hv) refl) ∙ r.1)
            (broadcast_kick ext channel client_id kp from_db key_cache channel_key)
            (broadcast_payload channel from_db key_cache client_id channel_key),
      )
