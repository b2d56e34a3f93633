-- ===== src/Chat/Enums/Texts.antt =====
-- src/chat/enums.rs: the texts of the enumerations, written and read back.
use plain_rs.Common.{◌≡◌, ◌≢◌, ◌↔◌, refl, str_eq, arith}
use plain_rs.Chat.Enums.{
  ok, DeviceType, device_type_text, device_type_of, PeerStatus, peer_status_text, peer_status_of,
  ChatStatus, chat_status_text, chat_status_of, ChannelStatus, channel_status_text,
  channel_status_of, MemberStatus, member_status_text, member_status_of, ChannelSystemMessageType,
  channel_system_message_type_text, channel_system_message_type_of, ChannelSystemMessageAction,
  channel_system_message_action_text, channel_system_message_action_of,
}

pub peer_status_of-peer_status_text : (s : PeerStatus) → peer_status_of (peer_status_text s) ≡ ok s
unfolding peer_status_of peer_status_text str_eq
peer_status_of-peer_status_text PeerStatus.paired = refl
peer_status_of-peer_status_text PeerStatus.unpaired = refl
peer_status_of-peer_status_text PeerStatus.channel = refl

pub chat_status_of-chat_status_text : (s : ChatStatus) → chat_status_of (chat_status_text s) ≡ ok s
unfolding chat_status_of chat_status_text str_eq
chat_status_of-chat_status_text ChatStatus.sent = refl
chat_status_of-chat_status_text ChatStatus.failed = refl
chat_status_of-chat_status_text ChatStatus.partial = refl
chat_status_of-chat_status_text ChatStatus.pending = refl

pub channel_status_of-channel_status_text :
    (s : ChannelStatus) → channel_status_of (channel_status_text s) ≡ ok s
unfolding channel_status_of channel_status_text str_eq
channel_status_of-channel_status_text ChannelStatus.joined = refl
channel_status_of-channel_status_text ChannelStatus.left = refl
channel_status_of-channel_status_text ChannelStatus.kicked = refl

pub member_status_of-member_status_text :
    (s : MemberStatus) → member_status_of (member_status_text s) ≡ ok s
unfolding member_status_of member_status_text str_eq
member_status_of-member_status_text MemberStatus.joined = refl
member_status_of-member_status_text MemberStatus.pending = refl

pub channel_system_message_type_of-channel_system_message_type_text :
    (s : ChannelSystemMessageType)
    → channel_system_message_type_of (channel_system_message_type_text s) ≡ ok s
unfolding channel_system_message_type_of channel_system_message_type_text str_eq
channel_system_message_type_of-channel_system_message_type_text ChannelSystemMessageType.invite =
    refl
channel_system_message_type_of-channel_system_message_type_text
      ChannelSystemMessageType.invite_accept =
    refl
channel_system_message_type_of-channel_system_message_type_text
      ChannelSystemMessageType.invite_decline =
    refl
channel_system_message_type_of-channel_system_message_type_text ChannelSystemMessageType.update =
    refl
channel_system_message_type_of-channel_system_message_type_text ChannelSystemMessageType.kick = refl
channel_system_message_type_of-channel_system_message_type_text ChannelSystemMessageType.leave =
    refl

pub channel_system_message_action_of-channel_system_message_action_text :
    (s : ChannelSystemMessageAction)
    → channel_system_message_action_of (channel_system_message_action_text s) ≡ ok s
unfolding channel_system_message_action_of channel_system_message_action_text str_eq
channel_system_message_action_of-channel_system_message_action_text
      ChannelSystemMessageAction.invite =
    refl
channel_system_message_action_of-channel_system_message_action_text
      ChannelSystemMessageAction.update =
    refl
channel_system_message_action_of-channel_system_message_action_text
      ChannelSystemMessageAction.kick =
    refl

-- Every status of a peer, a message, a channel and a member, and every type of a system message and
-- action of one, is read back from its text as the same value.
pub statuses_read_back :
    ((s : PeerStatus) → peer_status_of (peer_status_text s) ≡ ok s)
    × ((s : ChatStatus) → chat_status_of (chat_status_text s) ≡ ok s)
    × ((s : ChannelStatus) → channel_status_of (channel_status_text s) ≡ ok s)
    × ((s : MemberStatus) → member_status_of (member_status_text s) ≡ ok s)
    × ((s : ChannelSystemMessageType)
        → channel_system_message_type_of (channel_system_message_type_text s) ≡ ok s)
    × ((s : ChannelSystemMessageAction)
        → channel_system_message_action_of (channel_system_message_action_text s) ≡ ok s)
statuses_read_back = (
  peer_status_of-peer_status_text, chat_status_of-chat_status_text,
  channel_status_of-channel_status_text, member_status_of-member_status_text,
  channel_system_message_type_of-channel_system_message_type_text,
  channel_system_message_action_of-channel_system_message_action_text,
)

-- The type of a device is read back from its text exactly if it is not a NAS.
pub device_type_reads_back :
    (d : DeviceType) → (device_type_of (device_type_text d) ≡ ok d) ↔ (d ≢ DeviceType.nas)
unfolding device_type_of device_type_text str_eq
device_type_reads_back DeviceType.phone = ground arith
device_type_reads_back DeviceType.tablet = ground arith
device_type_reads_back DeviceType.computer = ground arith
device_type_reads_back DeviceType.tv = ground arith
device_type_reads_back DeviceType.nas = ground arith
device_type_reads_back DeviceType.other = ground arith
device_type_reads_back DeviceType.unknown = ground arith
