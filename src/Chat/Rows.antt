-- ===== src/Chat/Rows.antt =====
-- src/chat/db/{peer,channel,chat}.rs: the rows of the chat database and the statements over them. A
-- table is the list of its rows in the order of insertion; statements do not fail otherwise than by a
-- constraint, and `now` is the time that a call reads.
pub mod Chats
pub mod Laws
use plain_rs.Common.{
  ℕ, ◌%◌, ◌==◌, Bool, true, false, not, ◌&&◌, ◌||◌, List, [], ◌∷◌, ◌++◌, map, Option, none, some,
  Bytes, str_eq, filter, any, find?, is_empty, if◌then◌else◌, ◌>>=◌,
}
use plain_rs.Common.Int.{ℤ, pos}
use plain_rs.Library.Tables.History.{str_leb}
use plain_rs.Chat.Enums.{
  to_option, PeerStatus, unpaired, paired, peer_status_text, peer_status_of, is_paired_status,
  ChatStatus, ChannelStatus, channel_status_text, channel_status_of, DeviceType, device_type_text,
  device_type_of,
}
use plain_rs.Chat.Messages.{Json, ChannelMember, decode_members, is_joined}

pub record DPeer : Type 0 where
  pub id : Bytes
  pub name : Bytes
  pub ip : Bytes
  pub key : Bytes
  pub public_key : Bytes
  pub status : PeerStatus
  pub port : ℕ
  pub device_type : DeviceType
  pub token : Bytes
  pub created_at : Bytes
  pub updated_at : Bytes

-- `DPeer::new`
unfoldable pub new_peer : Bytes → Bytes → Bytes → Bytes → ℕ → DeviceType → DPeer
new_peer now id name ip port device_type = record {
  id = id;
  name = name;
  ip = ip;
  key = [];
  public_key = [];
  status = PeerStatus.unpaired;
  port = port;
  device_type = device_type;
  token = [];
  created_at = now;
  updated_at = now;
}

abbrev pub is_paired : DPeer → Bool
is_paired p = is_paired_status p.status

pub record DChannel : Type 0 where
  pub id : Bytes
  pub name : Bytes
  pub owner_id : Bytes
  pub members : Bytes
  pub key : Bytes
  pub version : ℤ
  pub status : ChannelStatus
  pub created_at : Bytes
  pub updated_at : Bytes

pub record DChat : Type 0 where
  pub id : Bytes
  pub from_id : Bytes
  pub to_id : Bytes
  pub channel_id : Bytes
  pub content : Bytes
  pub status : ChatStatus
  pub status_data : Bytes
  pub created_at : Bytes
  pub updated_at : Bytes

pub record ChatDb : Type 0 where
  pub peers : List DPeer
  pub channels : List DChannel
  pub chats : List DChat

-- `ORDER BY key ASC` on a text.
module _ {A : Type 0} (key : A → Bytes) where
  unfoldable pub insert_by_text : A → List A → List A
  insert_by_text x [] = x ∷ []
  insert_by_text x (y ∷ ys) =
      if str_leb (key x) (key y) then x ∷ y ∷ ys else y ∷ insert_by_text x ys

  unfoldable pub order_by_text : List A → List A
  order_by_text [] = []
  order_by_text (x ∷ xs) = insert_by_text x (order_by_text xs)

-- `query_map(...).filter_map(|r| r.ok())`: rows that are not readable are skipped.
unfoldable pub readable : {A : Type 0} → (A → Option A) → List A → List A
readable read [] = []
readable read (r ∷ rs) =
    let rest = readable read rs in elim (read r) [ none ↦ rest | some a ↦ a ∷ rest ]

-- Peers. A row is read through the texts of its status and of its device type.

unfoldable pub row_to_peer : DPeer → Option DPeer
row_to_peer p = do
  status ← to_option (peer_status_of (peer_status_text p.status))
  device_type ← to_option (device_type_of (device_type_text p.device_type))
  some (record p { status = status; port = p.port % 65536; device_type = device_type })

unfoldable pub get_peers : ChatDb → List DPeer
get_peers db = readable row_to_peer (order_by_text (λ (p : DPeer). p.name) db.peers)

unfoldable pub get_peer_by_id : ChatDb → Bytes → Option DPeer
get_peer_by_id db id = find? (λ (p : DPeer). str_eq p.id id) db.peers >>= row_to_peer

-- `ON CONFLICT(id) DO UPDATE`: the time of creation stays.
unfoldable pub upsert_peer_row : DPeer → List DPeer → List DPeer
upsert_peer_row peer [] = peer ∷ []
upsert_peer_row peer (p ∷ ps) =
    if str_eq p.id peer.id
    then (record peer { created_at = p.created_at }) ∷ ps
    else p ∷ upsert_peer_row peer ps

unfoldable pub upsert_peer : DPeer → ChatDb → ChatDb
upsert_peer peer db = record db { peers = upsert_peer_row peer db.peers }

unfoldable pub delete_peer : Bytes → ChatDb → ChatDb
delete_peer id db = record db { peers = filter (λ (p : DPeer). not (str_eq p.id id)) db.peers }

-- `UPDATE peers SET ... WHERE id=?`
abbrev set_peer : Bytes → (DPeer → DPeer) → ChatDb → ChatDb
set_peer id f db = record db {
  peers = map (λ (p : DPeer). if str_eq p.id id then f p else p) db.peers;
}

unfoldable pub update_peer_status : Bytes → Bytes → PeerStatus → ChatDb → ChatDb
update_peer_status now id status = set_peer id (λ p. record p { status = status; updated_at = now })

unfoldable pub update_peer_status_and_key : Bytes → Bytes → PeerStatus → Bytes → ChatDb → ChatDb
update_peer_status_and_key now id status key =
    set_peer id (λ p. record p { status = status; key = key; updated_at = now })

unfoldable pub logout_peer : Bytes → Bytes → ChatDb → ChatDb
logout_peer now id = set_peer id (λ p. record p { token = []; updated_at = now })

unfoldable pub update_peer_name : Bytes → Bytes → Bytes → ChatDb → ChatDb
update_peer_name now id name = set_peer id (λ p. record p { name = name; updated_at = now })

-- Channels.

unfoldable pub row_to_channel : DChannel → Option DChannel
row_to_channel ch = do
  status ← to_option (channel_status_of (channel_status_text ch.status))
  some (record ch { status = status })

unfoldable pub get_channels : ChatDb → ChannelStatus → List DChannel
get_channels db status = readable row_to_channel (
    order_by_text (λ (ch : DChannel). ch.name)
      (filter
        (λ (ch : DChannel). str_eq (channel_status_text ch.status) (channel_status_text status))
        db.channels))

unfoldable pub get_all_channels : ChatDb → List DChannel
get_all_channels db =
    readable row_to_channel (order_by_text (λ (ch : DChannel). ch.name) db.channels)

unfoldable pub get_channels_with_key : ChatDb → List DChannel
get_channels_with_key db =
    readable row_to_channel (filter (λ (ch : DChannel). not (is_empty ch.key)) db.channels)

unfoldable pub get_channel_by_id : ChatDb → Bytes → Option DChannel
get_channel_by_id db id = find? (λ (ch : DChannel). str_eq ch.id id) db.channels >>= row_to_channel

-- A taken id makes the statement fail, which the source ignores.
unfoldable pub insert_channel : DChannel → ChatDb → ChatDb
insert_channel channel db = record db {
  channels =
      if any (λ (ch : DChannel). str_eq ch.id channel.id) db.channels
      then db.channels
      else db.channels ++ (channel ∷ []);
}

-- The columns that an update of a channel writes: all but the time of creation.
abbrev pub overwrite : DChannel → DChannel → DChannel
overwrite channel ch = record channel { created_at = ch.created_at }

unfoldable pub update_channel : DChannel → ChatDb → ChatDb
update_channel channel db = record db {
  channels =
      map (λ (ch : DChannel). if str_eq ch.id channel.id then overwrite channel ch else ch)
        db.channels;
}

unfoldable pub upsert_channel : DChannel → ChatDb → ChatDb
upsert_channel channel db =
    if any (λ (ch : DChannel). str_eq ch.id channel.id) db.channels
    then update_channel channel db
    else insert_channel channel db

unfoldable pub delete_channel : Bytes → ChatDb → ChatDb
delete_channel id db = record db {
  channels = filter (λ (ch : DChannel). not (str_eq ch.id id)) db.channels;
}

module _ (json : Json (List ChannelMember)) where
  unfoldable pub joined_member_ids : DChannel → List Bytes
  joined_member_ids ch =
      map (λ (m : ChannelMember). m.peer_id) (filter is_joined (decode_members json ch.members))

  unfoldable pub any_channel_has_member : ChatDb → Bytes → Bool
  any_channel_has_member db peer_id =
      any
        (λ (ch : DChannel).
          any (λ (m : ChannelMember). str_eq m.peer_id peer_id) (decode_members json ch.members))
        (filter
          (λ (ch : DChannel).
            str_eq (channel_status_text ch.status) (channel_status_text ChannelStatus.joined))
          db.channels)
