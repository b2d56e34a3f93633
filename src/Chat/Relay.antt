-- ===== src/Chat/Relay.antt =====
-- src/chat/channel/chat_helper.rs and `elect_leader` of src/chat/db/channel.rs: a chat item, sent to
-- the members of a channel.
pub mod Status
use plain_rs.Common.{
  ℕ, Bool, true, false, not, List, [], ◌∷◌, ◌++◌, map, Option, none, some, Bytes, codes, str_eq,
  is_empty, filter, length, lookup, ◌==◌, if◌then◌else◌, any,
}
use plain_rs.Common.Int.{ℤ}
use plain_rs.Library.Tables.{contains}
use plain_rs.Library.Tables.History.{str_leb}
use plain_rs.Chat.Enums.{Result, ok, err, ChatStatus, sent, failed, partial}
use plain_rs.Chat.Messages.{Json, ChannelMember}
use plain_rs.Chat.Rows.{DPeer, DChannel, ChatDb, get_peer_by_id, joined_member_ids}
use plain_rs.Chat.Service.{KeyCache}
use plain_rs.Chat.Transport.{Wire, deliver_to_peer, peer_graphql_urls}

-- `iter().min()`
unfoldable pub least : Bytes → List Bytes → Bytes
least x [] = x
least x (y ∷ ys) = least (if str_leb x y then x else y) ys

-- The owner, if it is online, or the least id that is online.
unfoldable pub elect_leader : DChannel → List Bytes → Option Bytes
elect_leader ch [] = none
elect_leader ch (id ∷ ids) =
    if contains (id ∷ ids) ch.owner_id then some ch.owner_id else some (least id ids)

pub record ChannelDeliveryResult : Type 0 where
  pub peer_id : Bytes
  pub peer_name : Bytes
  pub error : Option Bytes

pub data SendResult : Type 0 where
  status : List ChannelDeliveryResult → SendResult
  no_leader leader_peer_missing : SendResult

-- The error of an outcome.
abbrev error_of : Result (Unit {0}) → Option Bytes
error_of (ok u) = none
error_of (err e) = some e

module _ (wire : Wire) (json : Json (List ChannelMember)) (ts : ℤ) (ch : DChannel)
    (client_id content : Bytes) (db : ChatDb) (cache : KeyCache) (kp_bytes : Bytes) where
  unfoldable pub send_to_member : DPeer → ChannelDeliveryResult
  send_to_member peer = record {
    peer_id = peer.id;
    peer_name = peer.name;
    error = elim (lookup ch.id cache) [
      | none ↦ some (codes "ChannelCacher has no key bytes for channel " ++ ch.id)
      | some key ↦ error_of (
          deliver_to_peer wire ts (peer_graphql_urls peer) key client_id kp_bytes content
            (some ch.id))
    ];
  }

  unfoldable pub send_to_recipients : List Bytes → List ChannelDeliveryResult
  send_to_recipients [] = []
  send_to_recipients (id ∷ ids) =
      let rest = send_to_recipients ids in
      elim (get_peer_by_id db id) [
        | none ↦
            (record {
              peer_id = id;
              peer_name = id;
              error = some (codes "Peer not found in database");
            })
            ∷ rest
        | some peer ↦ send_to_member peer ∷ rest
      ]

  unfoldable pub broadcast_as_leader : List ChannelDeliveryResult
  broadcast_as_leader =
      send_to_recipients (filter (λ id. not (str_eq id client_id)) (joined_member_ids json ch))

  unfoldable pub send_to_leader : Bytes → SendResult
  send_to_leader leader_id = elim (get_peer_by_id db leader_id) [
    | none ↦ leader_peer_missing
    | some peer ↦ status (send_to_member peer ∷ [])
  ]

  unfoldable pub send : SendResult
  send = elim (elect_leader ch (filter (λ id. str_eq id client_id) (joined_member_ids json ch))) [
    | none ↦ no_leader
    | some leader ↦
        if str_eq leader client_id then status broadcast_as_leader else send_to_leader leader
  ]

abbrev pub is_failure : ChannelDeliveryResult → Bool
is_failure r = elim r.error [ none ↦ false | some e ↦ true ]

unfoldable pub compute_status : List ChannelDeliveryResult → ChatStatus
compute_status results =
    let failures = length (filter is_failure results) in
    if is_empty results
    then ChatStatus.sent
    else if failures == 0
    then ChatStatus.sent
    else if failures == length results
    then ChatStatus.failed
    else ChatStatus.partial
