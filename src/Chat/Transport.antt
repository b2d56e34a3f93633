-- ===== src/Chat/Transport.antt =====
-- src/chat/transport.rs: the delivery of a message to a peer, at one address after the other. The
-- HTTP client, the cipher and the JSON of the request and of the response are parameters.
pub mod Answered
use plain_rs.Common.{
  ℕ, Bool, true, false, not, ◌&&◌, ◌||◌, List, [], ◌∷◌, ◌++◌, map, Option, none, some, Bytes, codes,
  str_eq, is_empty, filter, split, trim, join, ◌==◌, if◌then◌else◌,
}
use plain_rs.Common.Int.{ℤ, pos}
use plain_rs.Crypto.{Dalek, ed25519_sign}
use plain_rs.Chat.Enums.{Result, ok, err}
use plain_rs.Chat.Messages.{decimal, bar}
use plain_rs.Chat.Rows.{DPeer}

-- What a response says: a value with the field `errors` as text, or one without it.
pub data Response : Type 0 where
  refused : Bytes → Response
  accepted : Response

-- `xchacha_encrypt_raw` with the nonce that it draws, `xchacha_decrypt_raw`, `PeerTransport::post`,
-- the requests of `createChatItem` and `channelSystemMessage`, and `serde_json::from_slice`.
pub record Wire : Type 0 where
  pub dalek : Dalek
  pub encrypt : Bytes → Bytes → Option Bytes
  pub decrypt : Bytes → Bytes → Option Bytes
  pub post : Bytes → Bytes → Option Bytes → Bytes → Result Bytes
  pub chat_item_request : Bytes → Bytes
  pub system_message_request : Bytes → Bytes → Bytes
  pub read_response : Bytes → Option Response

-- src/utils/http_url.rs
unfoldable pub build_url : Bytes → Bytes → ℕ → Bytes → Bytes
build_url scheme host port path =
    let omit_port =
      ((str_eq scheme (codes "http") || str_eq scheme (codes "ws")) && port == 80)
      || ((str_eq scheme (codes "https") || str_eq scheme (codes "wss")) && port == 443) in
    scheme
    ++ (codes "://"
        ++ (host ++ ((if omit_port then [] else codes ":" ++ decimal (pos port)) ++ path)))

unfoldable pub peer_graphql_urls : DPeer → List Bytes
peer_graphql_urls peer =
    map (λ ip. build_url (codes "https") ip peer.port (codes "/peer_graphql"))
      (filter (λ ip. not (is_empty ip)) (map trim (split 44 peer.ip)))

module _ (wire : Wire) where
  -- `signature|timestamp|json`, signed over the time and the text.
  unfoldable pub signed_request : Bytes → ℤ → Bytes → Bytes
  signed_request kp_bytes ts graphql_json =
      ed25519_sign wire.dalek kp_bytes (decimal ts ++ graphql_json)
      ++ (bar ∷ (decimal ts ++ (bar ∷ graphql_json)))

  -- One round of the loop of `deliver_to_peer`: the error that it pushes, if it does not return.
  unfoldable pub attempt : Bytes → Bytes → Option Bytes → Bytes → Bytes → Result (Unit {0})
  attempt key client_id channel_id body url = elim (wire.post url client_id channel_id body) [
    | err e ↦ err (url ++ (codes ": " ++ e))
    | ok response ↦ elim (wire.decrypt key response) [
      | none ↦ err (url ++ codes ": failed decrypting response")
      | some decrypted ↦ elim (wire.read_response decrypted) [
        | none ↦ err (url ++ codes ": invalid JSON response")
        | some r ↦ elim r [
          | refused value ↦ err (url ++ (codes ": GraphQL errors " ++ value))
          | accepted ↦ ok tt
        ]
      ]
    ]
  ]

  unfoldable pub deliver_urls :
      Bytes → Bytes → Option Bytes → Bytes → List Bytes → List Bytes → Result (Unit {0})
  deliver_urls key client_id channel_id body [] errors =
      err (if is_empty errors then codes "delivery failed" else join (codes "; ") errors)
  deliver_urls key client_id channel_id body (url ∷ urls) errors =
      elim (attempt key client_id channel_id body url) [
        | ok u ↦ ok tt
        | err e ↦ deliver_urls key client_id channel_id body urls (errors ++ (e ∷ []))
      ]

  -- `ts` is the time that the call reads.
  unfoldable pub deliver_to_peer :
      ℤ → List Bytes → Bytes → Bytes → Bytes → Bytes → Option Bytes → Result (Unit {0})
  deliver_to_peer ts urls key client_id kp_bytes content channel_id =
      elim (wire.encrypt key (signed_request kp_bytes ts (wire.chat_item_request content))) [
        | none ↦ err (codes "encrypt failed")
        | some encrypted ↦ deliver_urls key client_id channel_id encrypted urls []
      ]

  -- One round of the loop of `deliver_channel_system_message`: whether it returns.
  unfoldable pub reaches : Bytes → Bytes → Option Bytes → Bytes → Bytes → Bool
  reaches key client_id channel_id body url = elim (wire.post url client_id channel_id body) [
    | err e ↦ false
    | ok response ↦ elim (wire.decrypt key response) [
      | none ↦ false
      | some decrypted ↦ elim (wire.read_response decrypted) [
        | none ↦ false
        | some r ↦ elim r [ refused value ↦ false | accepted ↦ true ]
      ]
    ]
  ]

  -- The loop, which keeps no errors.
  unfoldable pub reach_any : Bytes → Bytes → Option Bytes → Bytes → List Bytes → Bool
  reach_any key client_id channel_id body [] = false
  reach_any key client_id channel_id body (url ∷ urls) =
      elim (reaches key client_id channel_id body url) [
        | true ↦ true
        | false ↦ reach_any key client_id channel_id body urls
      ]

  unfoldable pub deliver_channel_system_message :
      ℤ → DPeer → Bytes → Bytes → Bytes → Bytes → Bytes → Option Bytes → Bool
  deliver_channel_system_message ts peer key client_id kp_bytes msg_type payload channel_id =
      elim (wire.encrypt key
        (signed_request kp_bytes ts (wire.system_message_request msg_type payload))) [
          | none ↦ false
          | some encrypted ↦ reach_any key client_id channel_id encrypted (peer_graphql_urls peer)
        ]
