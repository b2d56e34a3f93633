-- ===== src/Examples/Wire.antt =====
-- The third-party code of the chat by concrete functions: a binary form of each message in place of
-- its JSON, and a signature that is the length of the message, 64 times.
use plain_rs.Common.{
  ℕ, zero, suc, ◌<◌, ◌%◌, ◌≡◌, refl, ap, sym, ◌∙◌, subst, List, [], ◌∷◌, ◌++◌, Option, none, some,
  Bytes, All, length, take, drop, take-append, drop-append, str_eq, str_eq_iff, ◌>>=◌, arith,
}
use plain_rs.Common.Int.{ℤ, pos, negsuc}
use plain_rs.Crypto.{Dalek, DalekLaws}
use plain_rs.Chat.Enums.{DeviceType, MemberStatus}
use plain_rs.Chat.Messages.{
  Json, ReadsBack, ChannelMember, MemberPeerInfo, ChannelInvite, ChannelInviteAccept,
  ChannelInviteDecline, ChannelUpdate, ChannelKick, ChannelLeave,
}
use plain_rs.Chat.Service.{Externals}

-- A value in front of a rest, written and read.
pub record Codec (A : Type 0) : Type 0 where
  pub write : A → Bytes → Bytes
  pub read : Bytes → Option (A × Bytes)
  pub law : (a : A) (rest : Bytes) → read (write a rest) ≡ some (a, rest)

abbrev read_number : Bytes → Option (ℕ × Bytes)
read_number [] = none
read_number (n ∷ rest) = some (n, rest)

abbrev number : Codec ℕ
number = record { write = λ n rest. n ∷ rest; read = read_number; law = λ n rest. refl }

-- The length, and the text.
abbrev read_text : Bytes → Option (Bytes × Bytes)
read_text [] = none
read_text (n ∷ rest) = some (take n rest, drop n rest)

pub text_law : (a rest : Bytes) → read_text (length a ∷ (a ++ rest)) ≡ some (a, rest)
text_law a rest = rw (take-append a rest, drop-append a rest) refl

abbrev text : Codec Bytes
text = record { write = λ a rest. length a ∷ (a ++ rest); read = read_text; law = text_law }

module _ {A B : Type 0} (a : Codec A) (b : Codec B) where
  abbrev write_pair : A × B → Bytes → Bytes
  write_pair p rest = a.write p.0 (b.write p.1 rest)

  abbrev read_pair : Bytes → Option ((A × B) × Bytes)
  read_pair s = do (x, rest) ← a.read s; (y, rest') ← b.read rest; some ((x, y), rest')

  pub pair_law : (p : A × B) (rest : Bytes) → read_pair (write_pair p rest) ≡ some (p, rest)
  pair_law (x, y) rest = rw (a.law x (b.write y rest)) (rw (b.law y rest) refl)

  abbrev pair : Codec (A × B)
  pair = record { write = write_pair; read = read_pair; law = pair_law }

-- A value through another one.
module _ {A B : Type 0} (a : Codec A) (to : A → B) (from : B → A)
    (back : (y : B) → to (from y) ≡ y) where
  abbrev read_through : Bytes → Option (B × Bytes)
  read_through s = a.read s >>= λ (x, rest). some (to x, rest)

  pub through_law : (y : B) (rest : Bytes) → read_through (a.write (from y) rest) ≡ some (y, rest)
  through_law y rest = rw (a.law (from y) rest) (ap (λ z. some (z, rest)) (back y))

  abbrev through : Codec B
  through = record {
    write = λ y rest. a.write (from y) rest;
    read = read_through;
    law = through_law;
  }

-- The number of the elements, and the elements.
module _ {A : Type 0} (a : Codec A) where
  abbrev write_items : List A → Bytes → Bytes
  write_items [] rest = rest
  write_items (x ∷ xs) rest = a.write x (write_items xs rest)

  abbrev read_items : ℕ → Bytes → Option (List A × Bytes)
  read_items zero s = some ([], s)
  read_items (suc n) s = do
    (x, rest) ← a.read s
    (xs, rest') ← read_items n rest
    some (x ∷ xs, rest')

  pub items_law :
      (xs : List A) (rest : Bytes) → read_items (length xs) (write_items xs rest) ≡ some (xs, rest)
  items_law [] rest = refl
  items_law (x ∷ xs) rest = rw (a.law x (write_items xs rest)) (rw (items_law xs rest) refl)

  abbrev read_list : Bytes → Option (List A × Bytes)
  read_list [] = none
  read_list (n ∷ s) = read_items n s

  abbrev list : Codec (List A)
  list = record {
    write = λ xs rest. length xs ∷ write_items xs rest;
    read = read_list;
    law = items_law;
  }

-- A message without a rest.
module _ {A : Type 0} (a : Codec A) where
  abbrev json : Json A
  json = record { to_string = λ x. a.write x []; from_str = λ s. a.read s >>= λ (x, rest). some x }

  json-ReadsBack : ReadsBack json
  json-ReadsBack x = rw (a.law x []) refl

abbrev member_status_number : MemberStatus → ℕ
member_status_number MemberStatus.joined = 0
member_status_number MemberStatus.pending = 1

abbrev member_status_at : ℕ → MemberStatus
member_status_at zero = MemberStatus.joined
member_status_at (suc n) = MemberStatus.pending

pub member_status_back : (s : MemberStatus) → member_status_at (member_status_number s) ≡ s
member_status_back MemberStatus.joined = refl
member_status_back MemberStatus.pending = refl

abbrev device_number : DeviceType → ℕ
device_number DeviceType.phone = 0
device_number DeviceType.tablet = 1
device_number DeviceType.computer = 2
device_number DeviceType.tv = 3
device_number DeviceType.nas = 4
device_number DeviceType.other = 5
device_number DeviceType.unknown = 6

abbrev device_at : ℕ → DeviceType
device_at zero = DeviceType.phone
device_at (suc zero) = DeviceType.tablet
device_at (suc (suc zero)) = DeviceType.computer
device_at (suc (suc (suc zero))) = DeviceType.tv
device_at (suc (suc (suc (suc zero)))) = DeviceType.nas
device_at (suc (suc (suc (suc (suc zero))))) = DeviceType.other
device_at (suc (suc (suc (suc (suc (suc n)))))) = DeviceType.unknown

pub device_back : (d : DeviceType) → device_at (device_number d) ≡ d
device_back DeviceType.phone = refl
device_back DeviceType.tablet = refl
device_back DeviceType.computer = refl
device_back DeviceType.tv = refl
device_back DeviceType.nas = refl
device_back DeviceType.other = refl
device_back DeviceType.unknown = refl

abbrev ℤ_parts : ℤ → ℕ × ℕ
ℤ_parts (pos n) = (0, n)
ℤ_parts (negsuc n) = (1, n)

abbrev ℤ_of : ℕ × ℕ → ℤ
ℤ_of (zero, n) = pos n
ℤ_of (suc m, n) = negsuc n

pub ℤ_back : (v : ℤ) → ℤ_of (ℤ_parts v) ≡ v
ℤ_back (pos n) = refl
ℤ_back (negsuc n) = refl

abbrev integer : Codec ℤ
integer = through (pair number number) ℤ_of ℤ_parts ℤ_back

abbrev device : Codec DeviceType
device = through number device_at device_number device_back

abbrev member : Codec ChannelMember
member =
    through (pair text (through number member_status_at member_status_number member_status_back))
      (λ p. record { peer_id = p.0; status = p.1 }) (λ m. (m.peer_id, m.status)) (λ m. refl)

abbrev peer_info : Codec MemberPeerInfo
peer_info =
    through (pair text (pair text (pair text (pair device (pair text number)))))
      (λ p. record {
        id = p.0;
        name = p.1.0;
        public_key = p.1.1.0;
        device_type = p.1.1.1.0;
        ip = p.1.1.1.1.0;
        port = p.1.1.1.1.1;
      })
      (λ m. (m.id, (m.name, (m.public_key, (m.device_type, (m.ip, m.port)))))) (λ m. refl)

abbrev invite_codec : Codec ChannelInvite
invite_codec =
    through
      (pair text (
        pair text
          (pair text (pair text (pair (list member) (pair (list peer_info) (pair integer text)))))))
      (λ p. record {
        channel_id = p.0;
        channel_name = p.1.0;
        key = p.1.1.0;
        owner = p.1.1.1.0;
        members = p.1.1.1.1.0;
        member_peers = p.1.1.1.1.1.0;
        version = p.1.1.1.1.1.1.0;
        signature = p.1.1.1.1.1.1.1;
      })
      (λ m. (
        m.channel_id,
        (
          m.channel_name,
          (m.key, (m.owner, (m.members, (m.member_peers, (m.version, m.signature))))),
        ),
      ))
      (λ m. refl)

abbrev update_codec : Codec ChannelUpdate
update_codec =
    through (pair text (pair text (pair (list member) (pair (list peer_info) (pair integer text)))))
      (λ p. record {
        channel_id = p.0;
        channel_name = p.1.0;
        members = p.1.1.0;
        member_peers = p.1.1.1.0;
        version = p.1.1.1.1.0;
        signature = p.1.1.1.1.1;
      })
      (λ m.
        (m.channel_id, (m.channel_name, (m.members, (m.member_peers, (m.version, m.signature))))))
      (λ m. refl)

abbrev accept_codec : Codec ChannelInviteAccept
accept_codec =
    through (pair text (pair text (pair text device)))
      (λ p. record { channel_id = p.0; public_key = p.1.0; name = p.1.1.0; device_type = p.1.1.1 })
      (λ m. (m.channel_id, (m.public_key, (m.name, m.device_type)))) (λ m. refl)

abbrev kick_codec : Codec ChannelKick
kick_codec =
    through (pair text (pair integer text))
      (λ p. record { channel_id = p.0; version = p.1.0; signature = p.1.1 })
      (λ m. (m.channel_id, (m.version, m.signature))) (λ m. refl)

abbrev decline_codec : Codec ChannelInviteDecline
decline_codec = through text (λ id. record { channel_id = id }) (λ m. m.channel_id) (λ m. refl)

abbrev leave_codec : Codec ChannelLeave
leave_codec = through text (λ id. record { channel_id = id }) (λ m. m.channel_id) (λ m. refl)

abbrev pub repeat : ℕ → ℕ → Bytes
repeat zero b = []
repeat (suc n) b = b ∷ repeat n b

abbrev pub fingerprint : Bytes → Bytes
fingerprint message = repeat 64 (length message % 256)

abbrev pub the_dalek : Dalek
the_dalek = record {
  signs = λ kp message. some (fingerprint message);
  verifies = λ key message signature. str_eq signature (fingerprint message);
}

length-repeat : (n b : ℕ) → length (repeat n b) ≡ n
length-repeat zero b = refl
length-repeat (suc n) b = ap suc (length-repeat n b)

pub All-repeat : (n b : ℕ) → b < 256 → All (λ c. c < 256) (repeat n b)
All-repeat zero b h = tt
All-repeat (suc n) b h = (h, All-repeat n b h)

signed_eq : {a b : Bytes} → some a ≡ some b → b ≡ a
signed_eq h = cc

pub the_dalek-DalekLaws : DalekLaws the_dalek
the_dalek-DalekLaws = record {
  signature_length = λ {kp} {message} {signature} h.
      ap length (signed_eq h) ∙ length-repeat 64 (length message % 256);
  signature_bytes = λ {kp} {message} {signature} h.
      subst (All (λ c. c < 256)) (sym (signed_eq h))
        (All-repeat 64 (length message % 256) (omega arith));
  signature_verifies =
      λ {kp} {message} {signature} h. (str_eq_iff signature (fingerprint message)).1 (signed_eq h);
}

abbrev pub the_externals : Externals
the_externals = record {
  dalek = the_dalek;
  members_json = json (list member);
  invite_json = json invite_codec;
  accept_json = json accept_codec;
  decline_json = json decline_codec;
  update_json = json update_codec;
  kick_json = json kick_codec;
  leave_json = json leave_codec;
  channels_json = λ models. [];
  invite_event_json = λ model. [];
}

pub members-ReadsBack : ReadsBack the_externals.members_json
members-ReadsBack = json-ReadsBack (list member)

pub invite-ReadsBack : ReadsBack the_externals.invite_json
invite-ReadsBack = json-ReadsBack invite_codec

pub update-ReadsBack : ReadsBack the_externals.update_json
update-ReadsBack = json-ReadsBack update_codec

pub kick-ReadsBack : ReadsBack the_externals.kick_json
kick-ReadsBack = json-ReadsBack kick_codec
