-- ===== src/Chat/Rows/Laws.antt =====
-- src/chat/db/channel.rs: what the reads of a channel give after each statement.
use plain_rs.Common.{
  ◌≡◌, refl, Bool, List, [], ◌∷◌, map, Option, none, some, Bytes, str_eq, str_eq_iff, find?,
  if◌then◌else◌, Bool-cases, Option-cases, inl, inr, sym, ap, ◌∙◌, find?_hit, find?_miss, some_inj,
  subst, true, arith,
}
use plain_rs.Chat.Enums.Texts.{channel_status_of-channel_status_text}
use plain_rs.Chat.Rows.{
  DChannel, ChatDb, row_to_channel, DPeer, row_to_peer, get_peer_by_id, get_channel_by_id,
  update_channel, overwrite,
}

-- A row of a channel is always readable.
pub row_to_channel_lem : (ch : DChannel) → row_to_channel ch ≡ some ch
unfolding row_to_channel
row_to_channel_lem ch = rw (channel_status_of-channel_status_text ch.status) refl

abbrev pub rows_find : List DChannel → Bytes → Option DChannel
rows_find chs id = find? (λ (ch : DChannel). str_eq ch.id id) chs

pub get_channel_by_id_lem :
    (db : ChatDb) (id : Bytes) → get_channel_by_id db id ≡ rows_find db.channels id
unfolding get_channel_by_id
get_channel_by_id_lem db id = elim (Option-cases (rows_find db.channels id)) [
  | inl e ↦ rw (e) refl
  | inr (ch, e) ↦ rw (e, row_to_channel_lem ch) refl
]

rows_find_id :
    (chs : List DChannel) (id : Bytes) (ch : DChannel) → rows_find chs id ≡ some ch → ch.id ≡ id
rows_find_id [] id ch h = cc
rows_find_id (c ∷ chs) id ch h = elim (Bool-cases (str_eq c.id id)) [
  | inl e ↦
      let eq : c ≡ ch = some_inj (sym (find?_hit (λ (x : DChannel). str_eq x.id id) c chs e) ∙ h) in
      sym (ap (λ (x : DChannel). x.id) eq) ∙ (str_eq_iff c.id id).0 e
  | inr e ↦ rows_find_id chs id ch (sym (find?_miss (λ (x : DChannel). str_eq x.id id) c chs e) ∙ h)
]

-- The channel that is read has the id that was asked for.
pub get_channel_by_id_id :
    (db : ChatDb) (id : Bytes) (ch : DChannel) → get_channel_by_id db id ≡ some ch → ch.id ≡ id
get_channel_by_id_id db id ch h =
    rows_find_id db.channels id ch (sym (get_channel_by_id_lem db id) ∙ h)

-- What an update makes of a row.
abbrev pub patched : DChannel → DChannel → DChannel
patched channel ch = if str_eq ch.id channel.id then overwrite channel ch else ch

pub patched_id : (channel ch : DChannel) → (patched channel ch).id ≡ ch.id
patched_id channel ch = elim (Bool-cases (str_eq ch.id channel.id)) [
  | inl e ↦ rw (e) (sym ((str_eq_iff ch.id channel.id).0 e))
  | inr e ↦ rw (e) refl
]

abbrev pub map_option {ℓ} : {A B : Type ℓ} → (A → B) → Option A → Option B
map_option f none = none
map_option f (some a) = some (f a)

rows_find-map :
    (channel : DChannel) (chs : List DChannel) (id : Bytes)
    → rows_find (map (patched channel) chs) id ≡ map_option (patched channel) (rows_find chs id)
rows_find-map channel [] id = refl
rows_find-map channel (c ∷ chs) id =
    let p : DChannel → Bool = λ (x : DChannel). str_eq x.id id in
    let same : str_eq (patched channel c).id id ≡ str_eq c.id id =
      ap (λ x. str_eq x id) (patched_id channel c) in
    elim (Bool-cases (str_eq c.id id)) [
      | inl e ↦
          find?_hit p (patched channel c) (map (patched channel) chs) (same ∙ e)
          ∙ ap (map_option (patched channel)) (sym (find?_hit p c chs e))
      | inr e ↦
          find?_miss p (patched channel c) (map (patched channel) chs) (same ∙ e)
          ∙ (rows_find-map channel chs id
              ∙ ap (map_option (patched channel)) (sym (find?_miss p c chs e)))
    ]

-- An update replaces the row of its id, but for the time of creation, and no other row.
pub get_channel_by_id-update_channel :
    (channel : DChannel) (db : ChatDb) (id : Bytes)
    → get_channel_by_id (update_channel channel db) id
      ≡ map_option (patched channel) (get_channel_by_id db id)
unfolding update_channel
get_channel_by_id-update_channel channel db id =
    get_channel_by_id_lem (update_channel channel db) id
    ∙ (rows_find-map channel db.channels id
        ∙ ap (map_option (patched channel)) (sym (get_channel_by_id_lem db id)))

find?_holds : {A : Type 0} (p : A → Bool) (xs : List A) (x : A) → find? p xs ≡ some x → p x ≡ true
find?_holds p [] x h = cc
find?_holds p (y ∷ ys) x h = elim (Bool-cases (p y)) [
  | inl e ↦ subst (λ z. p z ≡ true) (some_inj (sym (find?_hit p y ys e) ∙ h)) e
  | inr e ↦ find?_holds p ys x (sym (find?_miss p y ys e) ∙ h)
]

row_to_peer_id : (q p : DPeer) → row_to_peer q ≡ some p → q.id ≡ p.id
unfolding row_to_peer
row_to_peer_id q p h = ground arith

-- The peer that is read has the id that was asked for.
pub get_peer_by_id_id :
    (db : ChatDb) (id : Bytes) (p : DPeer) → get_peer_by_id db id ≡ some p → p.id ≡ id
unfolding get_peer_by_id
get_peer_by_id_id db id p h = elim (Option-cases (find? (λ (p : DPeer). str_eq p.id id) db.peers)) [
  | inl e ↦ absurd (ground arith)
  | inr (q, e) ↦
      let read : row_to_peer q ≡ some p = ground arith in
      sym (row_to_peer_id q p read)
      ∙ (str_eq_iff q.id id).0 (find?_holds (λ (p : DPeer). str_eq p.id id) db.peers q e)
]
