-- ===== src/Lib.antt =====
-- A verification library for plain-rs, the shared core of the PlainApp desktop and NAS programs.
--
-- The parts that are modelled:
--   Library/Outcome      src/library/mod.rs: the error type, and a monad of state and error. What a step
--                        wrote before an error stays written, as in the program.
--   Library/Tables       src/library/db/audio_queue.rs: the record LibraryDb holds the tables (source row,
--                        preferences, queue, playlists, their items, history) as lists of rows, and each
--                        query of the source is a function on it, under the source's name.
--   Library/AudioQueue   src/library/audio_queue.rs: the playback order. playback_order reads the tables
--                        and the media index; Paging reads one track or a page of the order; Advance is
--                        resolve_next; Edits has the operations that change the queue, the source and the
--                        playlists.
--   Mdns/Codec, Message  src/mdns/packet_codec.rs and the records of src/mdns/service_info.rs: names,
--                        questions, records and whole messages, written and read.
--   Utils/Query          src/utils/query.rs: percent encoding and query strings.
--   Utils/Image          src/utils/image_dimensions.rs: the width and height of an image.
--   Utils/Base64         src/utils/base64.rs: base64, written and read.
--   Utils/HttpUrl        src/utils/http_url.rs: the parser of addresses; build_url is in Chat/Transport.
--   Crypto               src/crypto/ed25519.rs: signatures over base64 texts.
--   Chat/Enums, Rows     src/chat/enums.rs, and the tables of peers, channels and messages of src/chat/db:
--                        lists of rows, with each statement of the source as a function on them.
--   Chat/Service         the fields of ChatService of src/chat/service.rs that channels need, the events
--                        and the key caches of src/chat/events.rs.
--   Chat/Messages, Sender, Delivery
--                        src/chat/channel/messages.rs and sender.rs: the system messages of a channel.
--   Chat/Handler         src/chat/channel/handler.rs: the handler of each message; its early returns are
--                        an Option (invite_guards and so on), and what it spawns is a list of tasks.
--   Chat/Ops             src/chat/channel/ops.rs: create, rename, delete, leave, add, remove, answer.
--   Chat/Transport       src/chat/transport.rs: the delivery to a peer.
--   Chat/PeerAuth        src/chat/peer_auth.rs: the checks of a request of a peer.
--   Chat/Signing         the signature of a sender, as a receiver reads it.
--   Chat/Relay           src/chat/channel/chat_helper.rs: a chat item to the members of a channel.
--   Chat/Channels        what a message may do to a channel, as a step relation, and what follows.
--   Utils/Utf8           String::from_utf8_lossy of the standard library, which the parsers use.
--   Common               the names, lists, texts and integers that all parts share.
--   Examples             the statements on concrete inputs.
-- The audio queue stands on the tables and on the trait LibraryTracks, which other programs implement: it
-- is a record of functions, and the record IsIndex states what an index of distinct tracks answers.
-- The handlers and the operations of a channel work on the record ChatService; a sender only makes the
-- messages, which the operations append to those sent. The JSON of a message, the curve, the cipher and
-- the HTTP client are third-party code: the records Json, Dalek and Wire hold them, DalekLaws states what
-- the curve's crate documents, and ReadsBack that JSON that was written is read back. A handler reads the
-- clock as one argument, and a spawned task is run by run_task on the state of a later time.
-- The DNS parsers, the percent decoder and the authentication of a peer stand on Utils/Utf8, and
-- Utils/HttpUrl reads numbers as the authentication does. The parts share nothing else but Common.
--
-- Strings and byte slices are lists of numbers. usize is the native ℕ, i64 is ℤ; offsets into a slice do
-- not overflow, since a slice is shorter than 2^63. Words that are written keep their wrap-around. An
-- index or a slice out of bounds is the value panics of Common/Parsed, next to fails for None and gives
-- for Some, and a loop whose rounds are used up while its condition holds is the value spins. The offset
-- and the limit of a page come from 32-bit numbers, so their sum does not overflow. History counts wrap
-- around.
-- Clocks, fresh ids and random numbers are arguments.
--
-- Fuel. read_name takes `length packet` rounds and 9 nested calls: each round of its loop reads a later
-- offset of the packet, and the source counts depth from 0 to 8. The two loops of the JPEG reader take
-- `length b` rounds for the same reason. queue_page_unfiltered takes 3 rounds: each round of its loop
-- ends at the end of one of the three segments of the order, or at the last rank. digits, the decimal
-- digits of n, has n + 1 rounds, at least one for each digit. walk, the loop of
-- resolve_next, has its fuel as an argument, since the source sets it no bound.
--
-- Not modelled: the text filters of the pages (Unicode lower case), the mode preference, counts of
-- playlists, favourite folders and tags, EXIF positions, IPv6 texts, the mDNS responder and browser, the
-- life of a chat item in the service, logins, bookmarks and files of the chat, pairing, the ciphers, the
-- local API with its servers, DLNA and discovery: they are input and output, calls of other libraries, or
-- parts that a later extension takes up. The SQL of a query is read
-- as what it asks of the rows; a failing database is not modelled.
pub mod Common
pub mod Crypto
pub mod Mdns
pub mod Utils
pub mod Library
pub mod Chat
mod Examples
