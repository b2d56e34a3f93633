-- ===== src/Chat/Handler/Frames.antt =====
-- src/chat/channel/handler.rs: what the steps of a handler leave as it is.
use plain_rs.Common.{
  ◌≡◌, refl, sym, ◌∙◌, ap, false, List, [], ◌∷◌, ◌++◌, none, some, Bytes, str_eq, str_eq_refl,
  Bool-cases, inl, inr, arith, any,
}
use plain_rs.Chat.Messages.{MemberPeerInfo, ChannelInviteAccept}
use plain_rs.Chat.Rows.{DChannel, ChatDb, get_channel_by_id, upsert_peer, insert_channel}
use plain_rs.Chat.Rows.Laws.{get_channel_by_id_lem, rows_find}
use plain_rs.Chat.Service.{ChatService}
use plain_rs.Chat.Handler.Steps.{create_peers, accepter_peer, member_peer, spawn_broadcast}

-- Peers are stored beside the channels.
pub channels-create_peers :
    (now from_id : Bytes) (ms : List MemberPeerInfo) (db : ChatDb)
    → (create_peers now from_id ms db).channels ≡ db.channels
unfolding create_peers upsert_peer
channels-create_peers now from_id [] db = refl
channels-create_peers now from_id (m ∷ ms) db = ground (
  arith,
  channels-create_peers now from_id ms db,
  channels-create_peers now from_id ms (upsert_peer (member_peer now m) db),
)

pub channels-accepter_peer :
    (now from_id : Bytes) (msg : ChannelInviteAccept) (db : ChatDb)
    → (accepter_peer now from_id msg db).channels ≡ db.channels
unfolding accepter_peer upsert_peer
channels-accepter_peer now from_id msg db = ground arith

pub db-spawn_broadcast :
    (ch : DChannel) (kp_bytes : Bytes) (s : ChatService) → (spawn_broadcast ch kp_bytes s).db ≡ s.db
unfolding spawn_broadcast
db-spawn_broadcast ch kp_bytes s = ground arith

-- A channel is read from the table of channels alone.
pub get_channel_by_id_frame :
    (db db' : ChatDb) (id : Bytes)
    → db'.channels ≡ db.channels
    → get_channel_by_id db' id ≡ get_channel_by_id db id
get_channel_by_id_frame db db' id h =
    get_channel_by_id_lem db' id
    ∙ (ap (λ chs. rows_find chs id) h ∙ sym (get_channel_by_id_lem db id))

rows_find_append :
    (chs : List DChannel) (id : Bytes) (x ch : DChannel)
    → rows_find chs id ≡ some ch
    → rows_find (chs ++ (x ∷ [])) id ≡ some ch
rows_find_append [] id x ch h = cc
rows_find_append (c ∷ chs) id x ch h = ground (arith, rows_find_append chs id x ch)

-- A channel that is there stays as it is when another one is inserted.
pub get_channel_by_id-insert_channel :
    (x : DChannel) (db : ChatDb) (id : Bytes) (ch : DChannel)
    → get_channel_by_id db id ≡ some ch
    → get_channel_by_id (insert_channel x db) id ≡ some ch
unfolding insert_channel
get_channel_by_id-insert_channel x db id ch h =
    let taken = any (λ (c : DChannel). str_eq c.id x.id) db.channels in
    elim (Bool-cases taken) [
      | inl e ↦ get_channel_by_id_frame db (insert_channel x db) id (rw (e) refl) ∙ h
      | inr e ↦
          get_channel_by_id_lem (insert_channel x db) id
          ∙ rw (e) (rows_find_append db.channels id x ch (sym (get_channel_by_id_lem db id) ∙ h))
    ]

rows_find_new :
    (chs : List DChannel) (x : DChannel)
    → rows_find chs x.id ≡ none
    → (rows_find (chs ++ (x ∷ [])) x.id ≡ some x)
      × (any (λ (c : DChannel). str_eq c.id x.id) chs ≡ false)
rows_find_new [] x h = ground (arith, str_eq_refl x.id)
rows_find_new (c ∷ chs) x h = ground (arith, rows_find_new chs x)

-- A channel that is inserted under a free id is read.
pub get_channel_by_id-insert_channel_new :
    (x : DChannel) (db : ChatDb)
    → get_channel_by_id db x.id ≡ none
    → get_channel_by_id (insert_channel x db) x.id ≡ some x
unfolding insert_channel
get_channel_by_id-insert_channel_new x db h =
    let (found, free) = rows_find_new db.channels x (sym (get_channel_by_id_lem db x.id) ∙ h) in
    get_channel_by_id_lem (insert_channel x db) x.id ∙ rw (free) found
