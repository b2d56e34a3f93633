-- ===== src/Chat/PeerAuth/Granted.antt =====
-- src/chat/peer_auth.rs: what a granted request has passed.
use plain_rs.Common.{
  ℕ, ◌+◌, ◌≤◌, sym, arith, ◌≡◌, refl, ap, subst, Bool, true, false, not, ◌||◌, [], ◌∷◌, ◌++◌,
  Option, none, some, Bytes, is_empty, lookup, ◌⊎◌, inl, inr, if◌then◌else◌,
}
use plain_rs.Common.Int.{pos, i64_max}
use plain_rs.Chat.PeerAuth.Window.{
  WithinFiveMinutes, WrapsAround, Joined, three_parts-Joined, is_fresh-parse_i64,
}
use plain_rs.Utils.Base64.{base64_decode}
use plain_rs.Crypto.{ed25519_verify}
use plain_rs.Chat.Messages.{decimal}
use plain_rs.Chat.Rows.{DPeer, ChatDb, get_peer_by_id, is_paired}
use plain_rs.Chat.Service.{KeyCache}
use plain_rs.Chat.Transport.{Wire}
use plain_rs.Chat.PeerAuth.{
  Auth, AuthError, AuthenticatedPeer, grants, denies, ◌>>=◌, ok_or, unless, authenticate,
  request_key, parse_i64, three_parts, is_fresh, is_utf8, or_zero, no_channel_key, not_paired,
  unknown_peer, decrypt_failed, not_utf8, missing_fields, timestamp_expired, bad_signature,
}

grants_inj : {A : Type 0} {a b : A} → grants a ≡ grants b → a ≡ b
grants_inj h = cc

binds :
    {A B : Type 0} (r : Auth A) (f : A → Auth B) (b : B)
    → (r >>= f) ≡ grants b
    → (a : A) × (r ≡ grants a) × (f a ≡ grants b)
binds (grants a) f b h = (a, refl, h)
binds (denies e) f b h = absurd (cc)

finds : {A : Type 0} (e : AuthError) (o : Option A) (a : A) → ok_or e o ≡ grants a → o ≡ some a
finds e none a h = absurd (cc)
finds e (some b) a h = ap some (grants_inj h)

passes :
    {B : Type 0} (e : AuthError) (t : Bool) (r : Auth B) (b : B)
    → (unless e t >>= λ u. r) ≡ grants b
    → (t ≡ true) × (r ≡ grants b)
passes e true r b h = (refl, h)
passes e false r b h = absurd (cc)

not-true : (t : Bool) → not t ≡ true → t ≡ false
not-true true h = absurd (cc)
not-true false h = refl

paired_granted :
    (paired : Bool) (key found : Bytes)
    → (if not paired then denies not_paired else grants key) ≡ grants found
    → paired ≡ true
paired_granted true key found h = refl
paired_granted false key found h = absurd (cc)

paired_key :
    (paired : Bool) (key found : Bytes)
    → (if not paired then denies not_paired else grants key) ≡ grants found
    → key ≡ found
paired_key true key found h = grants_inj h
paired_key false key found h = absurd (cc)

-- Without a channel the peer is paired and the key its own, and with one the key is that of the channel.
abbrev KeyOf : DPeer → Bytes → KeyCache → Bytes → Type 0
KeyOf peer channel_id cache key =
    ((is_empty channel_id ≡ true) × (is_paired peer ≡ true) × (key ≡ base64_decode peer.key))
    ⊎ ((is_empty channel_id ≡ false) × (lookup channel_id cache ≡ some key))

request_key-KeyOf :
    (peer : DPeer) (channel_id key : Bytes) (cache : KeyCache)
    → request_key peer channel_id cache ≡ grants key
    → KeyOf peer channel_id cache key
unfolding request_key
request_key-KeyOf peer [] key cache h = inl (
  refl,
  paired_granted (is_paired peer) (base64_decode peer.key) key h,
  sym (paired_key (is_paired peer) (base64_decode peer.key) key h),
)
request_key-KeyOf peer (c ∷ cs) key cache h =
    inr (refl, finds no_channel_key (lookup (c ∷ cs) cache) key h)

neither :
    (s t : Bytes) → (is_empty s || is_empty t) ≡ false → (is_empty s ≡ false) × (is_empty t ≡ false)
neither s t h = (ground arith, ground arith)

module _ (wire : Wire) (db : ChatDb) (now : ℕ) (client_id channel_id body : Bytes)
    (cache : KeyCache) where
  abbrev HasPassed : AuthenticatedPeer → Type 0
  HasPassed a =
      (get_peer_by_id db client_id ≡ some a.peer)
      × KeyOf a.peer channel_id cache a.key
      × ((plain : Bytes) × (ts : Bytes) × (wire.decrypt a.key body ≡ some plain)
          × Joined plain (a.signature_b64, ts, a.graphql_json)
          × (a.timestamp ≡ or_zero (parse_i64 ts)))
      × (is_empty a.signature_b64 ≡ false)
      × (is_empty a.graphql_json ≡ false)
      × (WithinFiveMinutes (pos now) a.timestamp ⊎ WrapsAround (pos now) a.timestamp)
      × (ed25519_verify wire.dalek a.peer.public_key (decimal a.timestamp ++ a.graphql_json)
            a.signature_b64
          ≡ true)

  -- What a granted request has passed: the peer of its header is known; without a channel id it is
  -- paired and the key is the one of its row, and with one the key is that of the channel; the body
  -- opens under the key to the signature, a time and the JSON, joined by bars, neither signature nor JSON
  -- empty; the time is at most five minutes from now, or 2^63 before it, where the difference wraps
  -- around; and the signature of the time and the JSON verifies under the public key of the peer. The
  -- clock is five minutes from the end of its range at least.
  pub authenticate_granted :
      now + 300000 ≤ i64_max
      → (a : AuthenticatedPeer)
      → authenticate wire db (pos now) client_id channel_id body cache ≡ grants a
      → HasPassed a
  unfolding authenticate
  authenticate_granted early a h =
      let b0 = binds (ok_or unknown_peer (get_peer_by_id db client_id)) _ a h in
      let b1 = binds (request_key b0.0 channel_id cache) _ a b0.2 in
      let b2 = binds (ok_or decrypt_failed (wire.decrypt b1.0 body)) _ a b1.2 in
      let plain = b2.0 in
      let parts = three_parts plain in
      let timestamp = or_zero (parse_i64 parts.1) in
      let b3 = passes not_utf8 (is_utf8 plain) _ a b2.2 in
      let b4 = passes missing_fields (not (is_empty parts.0 || is_empty parts.2)) _ a b3.1 in
      let b5 = passes timestamp_expired (is_fresh (pos now) timestamp) _ a b4.1 in
      let b6 =
        passes bad_signature
          (ed25519_verify wire.dalek b0.0.public_key (decimal timestamp ++ parts.2) parts.0)
          (grants (record {
            peer = b0.0;
            key = b1.0;
            signature_b64 = parts.0;
            timestamp = timestamp;
            graphql_json = parts.2;
          }))
          a b5.1 in
      let full = neither parts.0 parts.2 (not-true (is_empty parts.0 || is_empty parts.2) b4.0) in
      subst HasPassed (grants_inj b6.1) (
        finds unknown_peer (get_peer_by_id db client_id) b0.0 b0.1,
        request_key-KeyOf b0.0 channel_id b1.0 cache b1.1,
        (
          plain,
          parts.1,
          finds decrypt_failed (wire.decrypt b1.0 body) plain b2.1,
          three_parts-Joined plain full.1,
          refl,
        ),
        full.0,
        full.1,
        is_fresh-parse_i64 now parts.1 early b5.0,
        b6.0,
      )
