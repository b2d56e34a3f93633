-- ===== src/Chat/Messages.antt =====
-- src/chat/channel/messages.rs: the members of a channel and the system messages between them. The
-- JSON of each type is that of `serde_json`, taken as a parameter.
use plain_rs.Common.{
  ℕ, suc, zero, ◌+◌, ◌/◌, ◌%◌, ◌≡◌, Bool, true, false, List, [], ◌∷◌, ◌++◌, Option, none, some,
  Bytes, str_eq, any, find?, ltb,
}
use plain_rs.Common.Int.{ℤ, pos, negsuc}
use plain_rs.Chat.Enums.{
  DeviceType, MemberStatus, is_joined_member, is_pending_member, ChannelSystemMessageAction,
  channel_system_message_action_text,
}

-- The decimal digits of a number, in front of `acc`; one round of fuel for each digit.
unfoldable pub digits : ℕ → ℕ → Bytes → Bytes
digits zero n acc = acc
digits (suc fuel) n acc = elim (ltb n 10) [
  | true ↦ (48 + n % 10) ∷ acc
  | false ↦ digits fuel (n / 10) ((48 + n % 10) ∷ acc)
]

-- `Display` of an `i64`.
unfoldable pub decimal : ℤ → Bytes
unfolding digits
decimal (pos n) = digits (suc n) n []
decimal (negsuc n) = 45 ∷ digits (suc (suc n)) (suc n) []

abbrev pub bar : ℕ
bar = 124

unfoldable pub channel_message_payload : Bytes → ℤ → ChannelSystemMessageAction → Bytes → Bytes
channel_message_payload channel_id version action target =
    channel_id
    ++ (bar
        ∷ (decimal version
            ++ (bar ∷ (channel_system_message_action_text action ++ (bar ∷ target)))))

pub record ChannelMember : Type 0 where
  pub peer_id : Bytes
  pub status : MemberStatus

unfoldable pub new_member : Bytes → ChannelMember
new_member id = record { peer_id = id; status = MemberStatus.joined }

unfoldable pub pending_member : Bytes → ChannelMember
pending_member id = record { peer_id = id; status = MemberStatus.pending }

abbrev pub is_joined : ChannelMember → Bool
is_joined m = is_joined_member m.status

abbrev pub is_pending : ChannelMember → Bool
is_pending m = is_pending_member m.status

pub record MemberPeerInfo : Type 0 where
  pub id : Bytes
  pub name : Bytes
  pub public_key : Bytes
  pub device_type : DeviceType
  pub ip : Bytes
  pub port : ℕ

pub record ChannelInvite : Type 0 where
  pub channel_id : Bytes
  pub channel_name : Bytes
  pub key : Bytes
  pub owner : Bytes
  pub members : List ChannelMember
  pub member_peers : List MemberPeerInfo
  pub version : ℤ
  pub signature : Bytes

pub record ChannelInviteAccept : Type 0 where
  pub channel_id : Bytes
  pub public_key : Bytes
  pub name : Bytes
  pub device_type : DeviceType

pub record ChannelInviteDecline : Type 0 where
  pub channel_id : Bytes

pub record ChannelUpdate : Type 0 where
  pub channel_id : Bytes
  pub channel_name : Bytes
  pub members : List ChannelMember
  pub member_peers : List MemberPeerInfo
  pub version : ℤ
  pub signature : Bytes

pub record ChannelKick : Type 0 where
  pub channel_id : Bytes
  pub version : ℤ
  pub signature : Bytes

pub record ChannelLeave : Type 0 where
  pub channel_id : Bytes

-- `serde_json::to_string` and `serde_json::from_str` at one type; the source never sees the former
-- fail.
pub record Json (A : Type 0) : Type 0 where
  pub to_string : A → Bytes
  pub from_str : Bytes → Option A

-- A text that was written is read back.
abbrev pub ReadsBack : {A : Type 0} → Json A → Type 0
ReadsBack {A} json = (a : A) → json.from_str (json.to_string a) ≡ some a

module _ (members : Json (List ChannelMember)) where
  unfoldable pub encode_members : List ChannelMember → Bytes
  encode_members ms = members.to_string ms

  unfoldable pub decode_members : Bytes → List ChannelMember
  decode_members raw = elim (members.from_str raw) [ none ↦ [] | some ms ↦ ms ]

unfoldable pub has_member : List ChannelMember → Bytes → Bool
has_member members peer_id = any (λ (m : ChannelMember). str_eq m.peer_id peer_id) members

unfoldable pub find_member : List ChannelMember → Bytes → Option ChannelMember
find_member members peer_id = find? (λ (m : ChannelMember). str_eq m.peer_id peer_id) members
