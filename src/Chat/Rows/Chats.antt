-- ===== src/Chat/Rows/Chats.antt =====
-- src/chat/db/chat.rs: the table of messages.
use plain_rs.Common.{
  Bool, not, ◌&&◌, ◌||◌, List, [], ◌∷◌, ◌++◌, map, Option, some, Bytes, str_eq, filter, any, find?,
  is_empty, if◌then◌else◌, ◌>>=◌,
}
use plain_rs.Library.Tables.{contains}
use plain_rs.Chat.Enums.{to_option, ChatStatus, chat_status_text, chat_status_of}
use plain_rs.Chat.Rows.{DChat, ChatDb, readable, order_by_text}

-- `DChat::new`, with the random id as an argument.
unfoldable pub new_chat : Bytes → Bytes → Bytes → Bytes → Bytes → Bytes → DChat
new_chat now id from_id to_id channel_id content = record {
  id = id;
  from_id = from_id;
  to_id = to_id;
  channel_id = channel_id;
  content = content;
  status = ChatStatus.sent;
  status_data = [];
  created_at = now;
  updated_at = now;
}

unfoldable pub row_to_chat : DChat → Option DChat
row_to_chat c = do
  status ← to_option (chat_status_of (chat_status_text c.status))
  some (record c { status = status })

unfoldable pub insert_chat : DChat → ChatDb → ChatDb
insert_chat chat db = record db {
  chats =
      if any (λ (c : DChat). str_eq c.id chat.id) db.chats
      then db.chats
      else db.chats ++ (chat ∷ []);
}

-- The answer tells whether a row was deleted.
unfoldable pub delete_chat : Bytes → ChatDb → Bool × ChatDb
delete_chat id db = (
  any (λ (c : DChat). str_eq c.id id) db.chats,
  record db { chats = filter (λ (c : DChat). not (str_eq c.id id)) db.chats },
)

unfoldable pub get_chat_by_id : ChatDb → Bytes → Option DChat
get_chat_by_id db id = find? (λ (c : DChat). str_eq c.id id) db.chats >>= row_to_chat

-- `UPDATE chats SET ... WHERE id=?`
abbrev set_chat : Bytes → (DChat → DChat) → ChatDb → ChatDb
set_chat id f db = record db {
  chats = map (λ (c : DChat). if str_eq c.id id then f c else c) db.chats;
}

unfoldable pub update_chat_status : Bytes → Bytes → ChatStatus → ChatDb → Option DChat × ChatDb
update_chat_status now id status db =
    let db' = set_chat id (λ c. record c { status = status; updated_at = now }) db in
    (get_chat_by_id db' id, db')

unfoldable pub update_chat_status_and_data :
    Bytes → Bytes → ChatStatus → Bytes → ChatDb → Option DChat × ChatDb
update_chat_status_and_data now id status status_data db =
    let db' =
      set_chat id (λ c. record c { status = status; status_data = status_data; updated_at = now })
        db in
    (get_chat_by_id db' id, db')

unfoldable pub update_chat_content : Bytes → Bytes → Bytes → ChatDb → Bool × ChatDb
update_chat_content now id content db = (
  any (λ (c : DChat). str_eq c.id id) db.chats,
  set_chat id (λ c. record c { content = content; updated_at = now }) db,
)

unfoldable pub delete_chats_by_channel : Bytes → ChatDb → ChatDb
delete_chats_by_channel channel_id db = record db {
  chats = filter (λ (c : DChat). not (str_eq c.channel_id channel_id)) db.chats;
}

-- The messages with one peer, outside every channel.
abbrev with_peer : Bytes → DChat → Bool
with_peer peer_id c = is_empty c.channel_id && (str_eq c.to_id peer_id || str_eq c.from_id peer_id)

unfoldable pub delete_chats_by_peer : Bytes → ChatDb → ChatDb
delete_chats_by_peer peer_id db = record db {
  chats = filter (λ (c : DChat). not (with_peer peer_id c)) db.chats;
}

unfoldable pub delete_chats_by_ids : List Bytes → ChatDb → ChatDb
delete_chats_by_ids ids db =
    if is_empty ids
    then db
    else record db { chats = filter (λ (c : DChat). not (contains ids c.id)) db.chats }

unfoldable pub get_chats_by_peer : ChatDb → Bytes → List DChat
get_chats_by_peer db peer_id =
    readable row_to_chat
      (order_by_text (λ (c : DChat). c.created_at) (filter (with_peer peer_id) db.chats))

unfoldable pub get_chats_by_channel : ChatDb → Bytes → List DChat
get_chats_by_channel db channel_id = readable row_to_chat (
    order_by_text (λ (c : DChat). c.created_at)
      (filter (λ (c : DChat). str_eq c.channel_id channel_id) db.chats))
