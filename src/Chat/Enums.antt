-- ===== src/Chat/Enums.antt =====
-- src/chat/enums.rs: the enumerations of the chat, the texts that stand for them in the database and
-- on the wire, and the texts that are read back (`Display`, `as_str` and `FromStr`).
pub mod Texts
use plain_rs.Common.{◌++◌, Bool, true, false, if◌then◌else◌, Option, Bytes, codes, str_eq}

-- `Result<A, String>`, and `Result::ok`.
pub data Result {ℓ} (A : Type ℓ) : Type ℓ where
  ok : A → Result A
  err : Bytes → Result A

abbrev pub to_option {ℓ} : {A : Type ℓ} → Result A → Option A
to_option (ok a) = Option.some a
to_option (err e) = Option.none

pub data PeerStatus : Type 0 where
  paired unpaired channel : PeerStatus

unfoldable pub peer_status_text : PeerStatus → Bytes
peer_status_text PeerStatus.paired = codes "PAIRED"
peer_status_text PeerStatus.unpaired = codes "UNPAIRED"
peer_status_text PeerStatus.channel = codes "CHANNEL"

unfoldable pub peer_status_of : Bytes → Result PeerStatus
peer_status_of s =
    if str_eq s (codes "PAIRED")
    then ok PeerStatus.paired
    else if str_eq s (codes "UNPAIRED")
    then ok PeerStatus.unpaired
    else if str_eq s (codes "CHANNEL")
    then ok PeerStatus.channel
    else err (codes "Unknown PeerStatus: " ++ s)

pub data ChatStatus : Type 0 where
  sent failed partial pending : ChatStatus

unfoldable pub chat_status_text : ChatStatus → Bytes
chat_status_text ChatStatus.sent = codes "SENT"
chat_status_text ChatStatus.failed = codes "FAILED"
chat_status_text ChatStatus.partial = codes "PARTIAL"
chat_status_text ChatStatus.pending = codes "PENDING"

unfoldable pub chat_status_of : Bytes → Result ChatStatus
chat_status_of s =
    if str_eq s (codes "SENT")
    then ok ChatStatus.sent
    else if str_eq s (codes "FAILED")
    then ok ChatStatus.failed
    else if str_eq s (codes "PARTIAL")
    then ok ChatStatus.partial
    else if str_eq s (codes "PENDING")
    then ok ChatStatus.pending
    else err (codes "Unknown ChatStatus: " ++ s)

pub data ChannelStatus : Type 0 where
  joined left kicked : ChannelStatus

unfoldable pub channel_status_text : ChannelStatus → Bytes
channel_status_text ChannelStatus.joined = codes "JOINED"
channel_status_text ChannelStatus.left = codes "LEFT"
channel_status_text ChannelStatus.kicked = codes "KICKED"

unfoldable pub channel_status_of : Bytes → Result ChannelStatus
channel_status_of s =
    if str_eq s (codes "JOINED")
    then ok ChannelStatus.joined
    else if str_eq s (codes "LEFT")
    then ok ChannelStatus.left
    else if str_eq s (codes "KICKED")
    then ok ChannelStatus.kicked
    else err (codes "Unknown ChannelStatus: " ++ s)

pub data MemberStatus : Type 0 where
  joined pending : MemberStatus

unfoldable pub member_status_text : MemberStatus → Bytes
member_status_text MemberStatus.joined = codes "JOINED"
member_status_text MemberStatus.pending = codes "PENDING"

unfoldable pub member_status_of : Bytes → Result MemberStatus
member_status_of s =
    if str_eq s (codes "JOINED")
    then ok MemberStatus.joined
    else if str_eq s (codes "PENDING")
    then ok MemberStatus.pending
    else err (codes "Unknown MemberStatus: " ++ s)

pub data DeviceType : Type 0 where
  phone tablet computer tv nas other unknown : DeviceType

unfoldable pub device_type_text : DeviceType → Bytes
device_type_text DeviceType.phone = codes "PHONE"
device_type_text DeviceType.tablet = codes "TABLET"
device_type_text DeviceType.computer = codes "COMPUTER"
device_type_text DeviceType.tv = codes "TV"
device_type_text DeviceType.nas = codes "NAS"
device_type_text DeviceType.other = codes "OTHER"
device_type_text DeviceType.unknown = codes "UNKNOWN"

unfoldable pub device_type_of : Bytes → Result DeviceType
device_type_of s =
    if str_eq s (codes "PHONE")
    then ok DeviceType.phone
    else if str_eq s (codes "TABLET")
    then ok DeviceType.tablet
    else if str_eq s (codes "COMPUTER")
    then ok DeviceType.computer
    else if str_eq s (codes "TV")
    then ok DeviceType.tv
    else if str_eq s (codes "OTHER")
    then ok DeviceType.other
    else if str_eq s (codes "UNKNOWN")
    then ok DeviceType.unknown
    else err (codes "Unknown DeviceType: " ++ s)

pub data ChannelSystemMessageType : Type 0 where
  invite invite_accept invite_decline update kick leave : ChannelSystemMessageType

unfoldable pub channel_system_message_type_text : ChannelSystemMessageType → Bytes
channel_system_message_type_text ChannelSystemMessageType.invite = codes "INVITE"
channel_system_message_type_text ChannelSystemMessageType.invite_accept = codes "INVITE_ACCEPT"
channel_system_message_type_text ChannelSystemMessageType.invite_decline = codes "INVITE_DECLINE"
channel_system_message_type_text ChannelSystemMessageType.update = codes "UPDATE"
channel_system_message_type_text ChannelSystemMessageType.kick = codes "KICK"
channel_system_message_type_text ChannelSystemMessageType.leave = codes "LEAVE"

unfoldable pub channel_system_message_type_of : Bytes → Result ChannelSystemMessageType
channel_system_message_type_of s =
    if str_eq s (codes "INVITE")
    then ok ChannelSystemMessageType.invite
    else if str_eq s (codes "INVITE_ACCEPT")
    then ok ChannelSystemMessageType.invite_accept
    else if str_eq s (codes "INVITE_DECLINE")
    then ok ChannelSystemMessageType.invite_decline
    else if str_eq s (codes "UPDATE")
    then ok ChannelSystemMessageType.update
    else if str_eq s (codes "KICK")
    then ok ChannelSystemMessageType.kick
    else if str_eq s (codes "LEAVE")
    then ok ChannelSystemMessageType.leave
    else err (codes "Unknown ChannelSystemMessageType: " ++ s)

pub data ChannelSystemMessageAction : Type 0 where
  invite update kick : ChannelSystemMessageAction

unfoldable pub channel_system_message_action_text : ChannelSystemMessageAction → Bytes
channel_system_message_action_text ChannelSystemMessageAction.invite = codes "INVITE"
channel_system_message_action_text ChannelSystemMessageAction.update = codes "UPDATE"
channel_system_message_action_text ChannelSystemMessageAction.kick = codes "KICK"

unfoldable pub channel_system_message_action_of : Bytes → Result ChannelSystemMessageAction
channel_system_message_action_of s =
    if str_eq s (codes "INVITE")
    then ok ChannelSystemMessageAction.invite
    else if str_eq s (codes "UPDATE")
    then ok ChannelSystemMessageAction.update
    else if str_eq s (codes "KICK")
    then ok ChannelSystemMessageAction.kick
    else err (codes "Unknown ChannelSystemMessageAction: " ++ s)

-- The derived equality with one constructor.
abbrev pub is_joined_status : ChannelStatus → Bool
is_joined_status ChannelStatus.joined = true
is_joined_status _ = false

-- `ch.status == ChannelStatus::Left || ch.status == ChannelStatus::Kicked`
abbrev pub is_gone : ChannelStatus → Bool
is_gone ChannelStatus.joined = false
is_gone _ = true

abbrev pub is_joined_member : MemberStatus → Bool
is_joined_member MemberStatus.joined = true
is_joined_member MemberStatus.pending = false

abbrev pub is_pending_member : MemberStatus → Bool
is_pending_member MemberStatus.joined = false
is_pending_member MemberStatus.pending = true

abbrev pub is_paired_status : PeerStatus → Bool
is_paired_status PeerStatus.paired = true
is_paired_status _ = false
