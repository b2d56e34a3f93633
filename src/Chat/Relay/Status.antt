-- ===== src/Chat/Relay/Status.antt =====
-- src/chat/channel/chat_helper.rs: who receives a chat item, and the status that comes of it.
use plain_rs.Common.{
  All, Bool-cases, Option-cases, false, ◌⊎◌, ◌↔◌, ◌∙◌, ap, sym, subst, some_inj, lookup, inl, inr,
  str_eq_iff, str_eq_refl, ◌≡◌, refl, Bool, true, not, List, [], ◌∷◌, none, some, Bytes, filter,
  length, arith, str_eq, length-filter, is_empty, ◌==◌, ◌&&◌, if◌then◌else◌,
}
use plain_rs.Chat.Enums.{ChatStatus, ok, err}
use plain_rs.Chat.Rows.Laws.{get_peer_by_id_id}
use plain_rs.Common.Int.{ℤ}
use plain_rs.Library.Tables.{contains}
use plain_rs.Chat.Messages.{Json, ChannelMember}
use plain_rs.Chat.Rows.{DPeer, DChannel, ChatDb, get_peer_by_id, joined_member_ids}
use plain_rs.Chat.Service.{KeyCache}
use plain_rs.Chat.Transport.{Wire, deliver_to_peer, peer_graphql_urls}
use plain_rs.Chat.Transport.Answered.{Result-cases, none_not_some, ok_not_err}
use plain_rs.Chat.Relay.{
  ChannelDeliveryResult, is_failure, compute_status, least, elect_leader, send, status, no_leader,
  broadcast_as_leader, send_to_member, send_to_recipients,
}

-- Whether each delivery succeeded, and whether each failed.
unfoldable pub none_failed : List ChannelDeliveryResult → Bool
none_failed [] = true
none_failed (r ∷ rs) = not (is_failure r) && none_failed rs

unfoldable pub all_failed : List ChannelDeliveryResult → Bool
all_failed [] = true
all_failed (r ∷ rs) = is_failure r && all_failed rs

count_none :
    (rs : List ChannelDeliveryResult) → (length (filter is_failure rs) == 0) ≡ none_failed rs
unfolding none_failed
count_none [] = refl
count_none (r ∷ rs) = ground (arith, count_none rs)

count_all :
    (rs : List ChannelDeliveryResult) → (length (filter is_failure rs) == length rs) ≡ all_failed rs
unfolding all_failed
count_all [] = refl
count_all (r ∷ rs) = ground (arith, count_all rs, length-filter is_failure rs)

-- The status of a message by what happened to each delivery, without counting: sent if no delivery
-- failed, failed if all did and there was one, partial otherwise.
pub compute_status_lem :
    (rs : List ChannelDeliveryResult)
    → compute_status rs ≡ (
        if none_failed rs
        then ChatStatus.sent
        else if all_failed rs
        then ChatStatus.failed
        else ChatStatus.partial)
unfolding compute_status none_failed
compute_status_lem [] = refl
compute_status_lem (r ∷ rs) = ground (arith, count_none (r ∷ rs), count_all (r ∷ rs))

-- The ids that are online, as `send` takes them, are all the peer's own.
All-own : (me : Bytes) (ids : List Bytes) → All (λ id. id ≡ me) (filter (λ id. str_eq id me) ids)
All-own me [] = tt
All-own me (id ∷ ids) = elim (Bool-cases (str_eq id me)) [
  | inl e ↦ rw (e, filter) ((str_eq_iff id me).0 e, All-own me ids)
  | inr e ↦ rw (e, filter) (All-own me ids)
]

least_own : (me x : Bytes) (ids : List Bytes) → x ≡ me → All (λ id. id ≡ me) ids → least x ids ≡ me
unfolding least
least_own me x [] h hs = h
least_own me x (y ∷ ys) h (hy, hys) =
    ground (arith, least_own me x ys h hys, least_own me y ys hy hys)

contains_own :
    (me x : Bytes) (ids : List Bytes) → All (λ id. id ≡ me) ids → contains ids x ≡ true → x ≡ me
unfolding contains
contains_own me x [] hs h = cc
contains_own me x (y ∷ ys) (hy, hys) h = ground (arith, str_eq_iff x y, contains_own me x ys hys)

-- An online peer is its own leader.
elect_leader_own :
    (ch : DChannel) (me : Bytes) (ids : List Bytes)
    → All (λ id. id ≡ me) ids
    → elect_leader ch ids ≡ (if is_empty ids then none else some me)
unfolding elect_leader
elect_leader_own ch me [] hs = refl
elect_leader_own ch me (id ∷ ids) (h, hs) =
    ground (arith, contains_own me ch.owner_id (id ∷ ids) (h, hs), least_own me id ids h hs)

is_empty-filter :
    (me : Bytes) (ids : List Bytes)
    → is_empty (filter (λ id. str_eq id me) ids) ≡ not (contains ids me)
unfolding contains
is_empty-filter me [] = refl
is_empty-filter me (id ∷ ids) =
    ground (arith, str_eq_iff id me, str_eq_iff me id, is_empty-filter me ids)

-- The ids of a list that are not the peer's own.
abbrev pub but : Bytes → List Bytes → List Bytes
but me [] = []
but me (id ∷ ids) = if str_eq id me then but me ids else id ∷ but me ids

filter-but : (me : Bytes) (ids : List Bytes) → filter (λ id. not (str_eq id me)) ids ≡ but me ids
filter-but me [] = refl
filter-but me (id ∷ ids) = ground (arith, filter-but me ids)

module _ (wire : Wire) (json : Json (List ChannelMember)) (ts : ℤ) (ch : DChannel)
    (client_id content : Bytes) (db : ChatDb) (cache : KeyCache) (kp_bytes : Bytes) where
  -- The key of the channel is there, and the item, under it and the id of the channel, is delivered.
  abbrev Reaches : DPeer → Type 0
  Reaches peer =
      (key : Bytes) × (lookup ch.id cache ≡ some key)
      × (deliver_to_peer wire ts (peer_graphql_urls peer) key client_id kp_bytes content
            (some ch.id)
          ≡ ok tt)

  -- The result for a recipient: an error if its row is missing, and otherwise none exactly if it is
  -- reached.
  abbrev pub Outcome : Bytes → ChannelDeliveryResult → Type 0
  Outcome id r =
      (r.peer_id ≡ id)
      × (((get_peer_by_id db id ≡ none) × (is_failure r ≡ true))
          ⊎ ((peer : DPeer) × (get_peer_by_id db id ≡ some peer)
              × (r.peer_name ≡ peer.name)
              × ((is_failure r ≡ false) ↔ Reaches peer)))

  -- One result for each id, in their order.
  abbrev pub Outcomes : List Bytes → List ChannelDeliveryResult → Type 0
  Outcomes [] [] = Unit
  Outcomes [] (r ∷ rs) = ⊥
  Outcomes (id ∷ ids) [] = ⊥
  Outcomes (id ∷ ids) (r ∷ rs) = Outcome id r × Outcomes ids rs

  send_to_member-Reaches :
      (peer : DPeer)
      → (is_failure (send_to_member wire json ts ch client_id content db cache kp_bytes peer)
          ≡ false)
        ↔ Reaches peer
  unfolding send_to_member
  send_to_member-Reaches peer = elim (Option-cases (lookup ch.id cache)) [
    | inl e ↦ rw (e, send_to_member) (λ h. cc, λ (key, c, d). absurd (none_not_some c))
    | inr (key, e) ↦
        let urls = peer_graphql_urls peer in
        elim (Result-cases
          (deliver_to_peer wire ts urls key client_id kp_bytes content (some ch.id))) [
            | inl (u, o) ↦ rw (e, o, send_to_member) (λ h. (key, refl, o), λ h. refl)
            | inr (x, o) ↦
                rw (e, o, send_to_member)
                  (
                    λ h. cc,
                    λ (k, c, d). absurd (
                        ok_not_err (
                          sym d
                          ∙ subst
                              (λ k.
                                deliver_to_peer wire ts urls k client_id kp_bytes content
                                  (some ch.id)
                                ≡ err x)
                              (some_inj c) o)),
                  )
          ]
  ]

  send_to_recipients-Outcomes :
      (ids : List Bytes)
      → Outcomes ids (send_to_recipients wire json ts ch client_id content db cache kp_bytes ids)
  unfolding send_to_recipients send_to_member
  send_to_recipients-Outcomes [] = tt
  send_to_recipients-Outcomes (id ∷ ids) = elim (Option-cases (get_peer_by_id db id)) [
    | inl e ↦ rw (e, send_to_recipients) ((refl, inl (e, refl)), send_to_recipients-Outcomes ids)
    | inr (peer, e) ↦
        rw (e, send_to_recipients)
          (
            (get_peer_by_id_id db id peer e, inr (peer, e, refl, send_to_member-Reaches peer)),
            send_to_recipients-Outcomes ids,
          )
  ]

  broadcast_lem :
      broadcast_as_leader wire json ts ch client_id content db cache kp_bytes
      ≡ send_to_recipients wire json ts ch client_id content db cache kp_bytes
          (but client_id (joined_member_ids json ch))
  unfolding broadcast_as_leader
  broadcast_lem =
      ap (send_to_recipients wire json ts ch client_id content db cache kp_bytes)
        (filter-but client_id (joined_member_ids json ch))

  send_itself : send wire json ts ch client_id content db cache kp_bytes ≡ (
      if contains (joined_member_ids json ch) client_id
      then status (broadcast_as_leader wire json ts ch client_id content db cache kp_bytes)
      else no_leader)
  unfolding send
  send_itself =
      let ids = joined_member_ids json ch in
      ground (
        arith,
        elect_leader_own ch client_id (filter (λ id. str_eq id client_id) ids)
            (All-own client_id ids),
        is_empty-filter client_id ids,
        str_eq_refl client_id,
      )

  -- A chat item is never relayed: a peer that is a joined member of the channel sends it to every other
  -- joined member itself, one result for each in their order, without an error exactly if that
  -- member is known and the item is delivered to it under the key of the channel; and another peer
  -- sends nothing, since it has no leader.
  pub send_lem :
      ((contains (joined_member_ids json ch) client_id ≡ true)
        × ((rs : List ChannelDeliveryResult) × (send wire json ts ch client_id content db cache
                kp_bytes
              ≡ status rs)
            × Outcomes (but client_id (joined_member_ids json ch)) rs))
      ⊎ ((contains (joined_member_ids json ch) client_id ≡ false)
          × (send wire json ts ch client_id content db cache kp_bytes ≡ no_leader))
  send_lem =
      let ids = joined_member_ids json ch in
      elim (Bool-cases (contains ids client_id)) [
        | inl e ↦ inl (
          e,
          (
            send_to_recipients wire json ts ch client_id content db cache kp_bytes
                (but client_id ids),
            send_itself ∙ rw (e) (ap status broadcast_lem),
            send_to_recipients-Outcomes (but client_id ids),
          ),
        )
        | inr e ↦ inr (e, send_itself ∙ rw e refl)
      ]
