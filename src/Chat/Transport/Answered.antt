-- ===== src/Chat/Transport/Answered.antt =====
-- src/chat/transport.rs: a chat item and a system message to a peer, and what its addresses answer.
use plain_rs.Common.{
  ◌≡◌, ◌↔◌, refl, ap, sym, ◌∙◌, true, List, [], ◌∷◌, ◌++◌, Option, none, some, Bytes, arith, ◌⊎◌,
  false, inl, inr, Option-cases, Bool-cases, some_inj, subst,
}
use plain_rs.Common.Int.{ℤ}
use plain_rs.Chat.Enums.{Result, ok, err}
use plain_rs.Chat.Rows.{DPeer}
use plain_rs.Chat.Transport.{
  Wire, Response, refused, accepted, attempt, deliver_urls, reaches, reach_any, signed_request,
  deliver_to_peer, deliver_channel_system_message, peer_graphql_urls,
}

pub Result-cases {ℓ} :
    {A : Type ℓ} (r : Result A) → ((a : A) × (r ≡ ok a)) ⊎ ((e : Bytes) × (r ≡ err e))
Result-cases (ok a) = inl (a, refl)
Result-cases (err e) = inr (e, refl)

Response-cases : (r : Response) → (r ≡ accepted) ⊎ ((v : Bytes) × (r ≡ refused v))
Response-cases accepted = inl refl
Response-cases (refused v) = inr (v, refl)

pub ok_not_err : {A : Type 0} {a : A} {e : Bytes} → Path (Result A) (ok a) (err e) → ⊥
ok_not_err h = cc

pub none_not_some : {A : Type 0} {a : A} → Path (Option A) none (some a) → ⊥
none_not_some h = cc

true_not_false : true ≡ false → ⊥
true_not_false h = cc

module _ (wire : Wire) (key client_id : Bytes) (channel_id : Option Bytes) where
  -- The address answers the body with a response that opens under the key and says no errors.
  abbrev pub Answers : Bytes → Bytes → Type 0
  Answers body url =
      (response : Bytes) × (plain : Bytes) × (wire.post url client_id channel_id body ≡ ok response)
      × (wire.decrypt key response ≡ some plain)
      × (wire.read_response plain ≡ some accepted)

  abbrev pub SomeAnswers : Bytes → List Bytes → Type 0
  SomeAnswers body [] = ⊥
  SomeAnswers body (url ∷ urls) = Answers body url ⊎ SomeAnswers body urls

  -- The text closes under the key, and one of the addresses answers it.
  abbrev pub Arrives : Bytes → List Bytes → Type 0
  Arrives text urls = (body : Bytes) × (wire.encrypt key text ≡ some body) × SomeAnswers body urls

  module _ (body : Bytes) where
    attempt_ok :
        (url : Bytes) → attempt wire key client_id channel_id body url ≡ ok tt → Answers body url
    unfolding attempt
    attempt_ok url h = elim (Result-cases (wire.post url client_id channel_id body)) [
      | inr (e, p) ↦ absurd (ground arith)
      | inl (response, p) ↦ elim (Option-cases (wire.decrypt key response)) [
        | inl n ↦ absurd (ground arith)
        | inr (plain, q) ↦ elim (Option-cases (wire.read_response plain)) [
          | inl n ↦ absurd (ground arith)
          | inr (r, t) ↦ elim (Response-cases r) [
            | inl a ↦ (response, plain, p, q, t ∙ ap some a)
            | inr (v, a) ↦ absurd (ground arith)
          ]
        ]
      ]
    ]

    attempt-Answers :
        (url : Bytes) → Answers body url → attempt wire key client_id channel_id body url ≡ ok tt
    unfolding attempt
    attempt-Answers url (response, plain, p, q, t) = ground arith

    reaches-true :
        (url : Bytes) → reaches wire key client_id channel_id body url ≡ true → Answers body url
    unfolding reaches
    reaches-true url h = elim (Result-cases (wire.post url client_id channel_id body)) [
      | inr (e, p) ↦ absurd (ground arith)
      | inl (response, p) ↦ elim (Option-cases (wire.decrypt key response)) [
        | inl n ↦ absurd (ground arith)
        | inr (plain, q) ↦ elim (Option-cases (wire.read_response plain)) [
          | inl n ↦ absurd (ground arith)
          | inr (r, t) ↦ elim (Response-cases r) [
            | inl a ↦ (response, plain, p, q, t ∙ ap some a)
            | inr (v, a) ↦ absurd (ground arith)
          ]
        ]
      ]
    ]

    reaches-Answers :
        (url : Bytes) → Answers body url → reaches wire key client_id channel_id body url ≡ true
    unfolding reaches
    reaches-Answers url (response, plain, p, q, t) = ground arith

    reach_any_lem :
        (urls : List Bytes)
        → (reach_any wire key client_id channel_id body urls ≡ true) ↔ SomeAnswers body urls
    unfolding reach_any
    reach_any_lem [] = (λ h. cc, λ h. absurd h)
    reach_any_lem (url ∷ urls) =
        elim (Bool-cases (reaches wire key client_id channel_id body url)) [
          | inl e ↦ rw (e, reach_any) (λ h. inl (reaches-true url e), λ h. refl)
          | inr e ↦
              rw (e, reach_any)
                (
                  λ h. inr ((reach_any_lem urls).0 h),
                  λ h. elim h [
                    | inl a ↦ absurd (true_not_false (sym (reaches-Answers url a) ∙ e))
                    | inr r ↦ (reach_any_lem urls).1 r
                  ],
                )
        ]

    deliver_urls_lem :
        (urls errors : List Bytes)
        → (deliver_urls wire key client_id channel_id body urls errors ≡ ok tt)
          ↔ SomeAnswers body urls
    unfolding deliver_urls
    deliver_urls_lem [] errors = (λ h. absurd (ok_not_err (sym h)), λ h. absurd h)
    deliver_urls_lem (url ∷ urls) errors =
        elim (Result-cases (attempt wire key client_id channel_id body url)) [
          | inl (a, e) ↦ rw (e, deliver_urls) (λ h. inl (attempt_ok url e), λ h. refl)
          | inr (x, e) ↦
              rw (e, deliver_urls)
                (
                  λ h. inr ((deliver_urls_lem urls (errors ++ (x ∷ []))).0 h),
                  λ h. elim h [
                    | inl a ↦ absurd (ok_not_err (sym (attempt-Answers url a) ∙ e))
                    | inr r ↦ (deliver_urls_lem urls (errors ++ (x ∷ []))).1 r
                  ],
                )
        ]

  deliver_to_peer_lem :
      (ts : ℤ) (urls : List Bytes) (kp_bytes content : Bytes)
      → (deliver_to_peer wire ts urls key client_id kp_bytes content channel_id ≡ ok tt)
        ↔ Arrives (signed_request wire kp_bytes ts (wire.chat_item_request content)) urls
  unfolding deliver_to_peer
  deliver_to_peer_lem ts urls kp_bytes content =
      let text = signed_request wire kp_bytes ts (wire.chat_item_request content) in
      elim (Option-cases (wire.encrypt key text)) [
        | inl e ↦
            rw (e, deliver_to_peer)
              (λ h. absurd (ok_not_err (sym h)), λ (body, c, a). absurd (none_not_some c))
        | inr (body, e) ↦
            rw (e, deliver_to_peer)
              (
                λ h. (body, refl, (deliver_urls_lem body urls []).0 h),
                λ (b, c, a).
                    (deliver_urls_lem body urls []).1
                      (subst (λ b. SomeAnswers b urls) (sym (some_inj c)) a),
              )
      ]

  deliver_channel_system_message_lem :
      (ts : ℤ) (peer : DPeer) (kp_bytes msg_type payload : Bytes)
      → (deliver_channel_system_message wire ts peer key client_id kp_bytes msg_type payload
            channel_id
          ≡ true)
        ↔ Arrives
            (signed_request wire kp_bytes ts (wire.system_message_request msg_type payload))
            (peer_graphql_urls peer)
  unfolding deliver_channel_system_message
  deliver_channel_system_message_lem ts peer kp_bytes msg_type payload =
      let text = signed_request wire kp_bytes ts (wire.system_message_request msg_type payload) in
      elim (Option-cases (wire.encrypt key text)) [
        | inl e ↦
            rw (e, deliver_channel_system_message)
              (λ h. cc, λ (body, c, a). absurd (none_not_some c))
        | inr (body, e) ↦
            rw (e, deliver_channel_system_message)
              (
                λ h. (body, refl, (reach_any_lem body (peer_graphql_urls peer)).0 h),
                λ (b, c, a).
                    (reach_any_lem body (peer_graphql_urls peer)).1
                      (subst (λ b. SomeAnswers b (peer_graphql_urls peer)) (sym (some_inj c)) a),
              )
      ]

  -- A chat item to a peer is delivered exactly if its signed request closes under the key and one of
  -- the addresses given answers it with a response that opens under the key and says no errors; a system
  -- message exactly if one of the addresses of the peer answers its signed request so.
  pub delivered_iff_answered :
      (ts : ℤ) (urls : List Bytes) (kp_bytes content : Bytes) (peer : DPeer)
      (msg_type payload : Bytes)
      → ((deliver_to_peer wire ts urls key client_id kp_bytes content channel_id ≡ ok tt)
          ↔ Arrives (signed_request wire kp_bytes ts (wire.chat_item_request content)) urls)
        × ((deliver_channel_system_message wire ts peer key client_id kp_bytes msg_type payload
                channel_id
              ≡ true)
            ↔ Arrives
                (signed_request wire kp_bytes ts (wire.system_message_request msg_type payload))
                (peer_graphql_urls peer))
  delivered_iff_answered ts urls kp_bytes content peer msg_type payload = (
    deliver_to_peer_lem ts urls kp_bytes content,
    deliver_channel_system_message_lem ts peer kp_bytes msg_type payload,
  )
