-- ===== src/Chat/Service/Caches.antt =====
-- src/chat/events.rs: the caches of the keys of peers and of channels.
use plain_rs.Common.{not, ◌&&◌, List, [], ◌∷◌, is_empty, length, insert, ◌==◌, if◌then◌else◌}
use plain_rs.Utils.Base64.{base64_decode}
use plain_rs.Chat.Rows.{DPeer, DChannel, get_peers, is_paired, get_channels_with_key}
use plain_rs.Chat.Service.{KeyCache, ChatService}

-- The loops of `refresh_peer_key_cache` and `load_key_cache`: a later row replaces an earlier one.
unfoldable pub peer_keys : List DPeer → KeyCache → KeyCache
peer_keys [] cache = cache
peer_keys (p ∷ ps) cache =
    let raw = base64_decode p.key in
    if not (is_empty p.key) && is_paired p && length raw == 32
    then peer_keys ps (insert p.id raw cache)
    else peer_keys ps cache

unfoldable pub channel_keys : List DChannel → KeyCache → KeyCache
channel_keys [] cache = cache
channel_keys (ch ∷ chs) cache =
    let raw = base64_decode ch.key in
    if length raw == 32 then channel_keys chs (insert ch.id raw cache) else channel_keys chs cache

unfoldable pub refresh_peer_key_cache : ChatService → ChatService
refresh_peer_key_cache s = record s { peer_key_cache = peer_keys (get_peers s.db) [] }

unfoldable pub load_key_cache : ChatService → ChatService
unfolding refresh_peer_key_cache
load_key_cache s = record (refresh_peer_key_cache s) {
  channel_key_cache = channel_keys (get_channels_with_key s.db) [];
}
