-- ===== src/Chat/Delivery.antt =====
-- src/chat/channel/sender.rs: the choice of the key of a message and the loop over its recipients.
use plain_rs.Common.{
  not, List, [], ◌∷◌, Option, none, some, Bytes, is_empty, lookup, if◌then◌else◌, ◌>>=◌,
}
use plain_rs.Chat.Enums.{ChannelSystemMessageType, channel_system_message_type_text}
use plain_rs.Chat.Rows.{DPeer, ChatDb, get_peer_by_id}
use plain_rs.Chat.Service.{KeyCache, Delivery}

-- The key of the transport: of the peer itself, or of the channel for a peer that never paired.
unfoldable pub deliver_type :
    DPeer
    → Bytes
    → Bytes
    → ChannelSystemMessageType
    → Bytes
    → Bytes
    → Bytes
    → KeyCache
    → Option Delivery
deliver_type peer client_id kp_bytes msg_type payload channel_id channel_key key_cache =
    let delivery : Bytes → Option Bytes → Delivery = λ key wire_cid. record {
      peer = peer;
      key = key;
      client_id = client_id;
      kp_bytes = kp_bytes;
      msg_type = channel_system_message_type_text msg_type;
      payload = payload;
      channel_id = wire_cid;
    } in
    if not (is_empty peer.key)
    then elim (lookup peer.id key_cache) [ none ↦ none | some k ↦ some (delivery k none) ]
    else some (delivery channel_key (some channel_id))

-- The loop over the members of a broadcast.
unfoldable pub deliver_all :
    ChatDb
    → Bytes
    → Bytes
    → ChannelSystemMessageType
    → Bytes
    → Bytes
    → Bytes
    → KeyCache
    → List Bytes
    → List Delivery
deliver_all db client_id kp_bytes msg_type payload channel_id channel_key key_cache [] = []
deliver_all db client_id kp_bytes msg_type payload channel_id channel_key key_cache (id ∷ ids) =
    let rest =
      deliver_all db client_id kp_bytes msg_type payload channel_id channel_key key_cache ids in
    elim (get_peer_by_id db id >>= λ peer.
    deliver_type peer client_id kp_bytes msg_type payload channel_id channel_key key_cache) [
      | none ↦ rest
      | some d ↦ d ∷ rest
    ]
