-- ===== src/Chat/Service.antt =====
-- The state that the operations on channels work on: the fields of `ChatService` of src/chat/service.rs
-- that they read or write, the events and the key caches of src/chat/events.rs, and what is taken from
-- third-party crates.
pub mod Caches
use plain_rs.Common.{ℕ, List, [], ◌∷◌, ◌++◌, map, Option, Bytes}
use plain_rs.Common.Int.{ℤ}
use plain_rs.Crypto.{Dalek}
use plain_rs.Chat.Enums.{
  DeviceType, ChannelStatus, MemberStatus, member_status_text, channel_status_text,
}
use plain_rs.Chat.Messages.{
  Json, ChannelMember, ChannelInvite, ChannelInviteAccept, ChannelInviteDecline, ChannelUpdate,
  ChannelKick, ChannelLeave, decode_members,
}
use plain_rs.Chat.Rows.{DPeer, DChannel, ChatDb, get_channels}

abbrev pub ws_channels_updated : ℕ
ws_channels_updated = 18

abbrev pub ws_channel_invite_received : ℕ
ws_channel_invite_received = 28

pub record ChatEvent : Type 0 where
  pub event_type : ℕ
  pub payload : Bytes

-- The objects of `channels_updated_payload`.
pub record MemberModel : Type 0 where
  pub peer_id : Bytes
  pub status : Bytes

pub record ChannelModel : Type 0 where
  pub id : Bytes
  pub name : Bytes
  pub owner_id : Bytes
  pub members : List MemberModel
  pub version : ℤ
  pub status : Bytes
  pub created_at : Bytes
  pub updated_at : Bytes

-- The object of the event of an invite.
pub record InviteModel : Type 0 where
  pub channel_id : Bytes
  pub channel_name : Bytes
  pub from_id : Bytes
  pub from_name : Bytes

-- The JSON of each type, and the signatures.
pub record Externals : Type 0 where
  pub dalek : Dalek
  pub members_json : Json (List ChannelMember)
  pub invite_json : Json ChannelInvite
  pub accept_json : Json ChannelInviteAccept
  pub decline_json : Json ChannelInviteDecline
  pub update_json : Json ChannelUpdate
  pub kick_json : Json ChannelKick
  pub leave_json : Json ChannelLeave
  pub channels_json : List ChannelModel → Bytes
  pub invite_event_json : InviteModel → Bytes

-- `HashMap<String, Vec<u8>>`
abbrev pub KeyCache : Type 0
KeyCache = List (Bytes × Bytes)

pub record ChatIdentity : Type 0 where
  pub client_id : Bytes
  pub device_name : Bytes
  pub ed25519_keypair : Bytes

-- A call of `deliver_channel_system_message`: its arguments. No caller uses the answer.
pub record Delivery : Type 0 where
  pub peer : DPeer
  pub key : Bytes
  pub client_id : Bytes
  pub kp_bytes : Bytes
  pub msg_type : Bytes
  pub payload : Bytes
  pub channel_id : Option Bytes

-- A task that a handler spawns: the broadcast of a channel, with what the closure captures by value.
pub record BroadcastTask : Type 0 where
  pub channel : DChannel
  pub client_id : Bytes
  pub device_name : Bytes
  pub device_type : DeviceType
  pub kp_bytes : Bytes
  pub channel_key : Bytes

pub record ChatService : Type 0 where
  pub identity : ChatIdentity
  pub wire_device_type : DeviceType
  pub db : ChatDb
  pub peer_key_cache : KeyCache
  pub channel_key_cache : KeyCache
  -- what was sent so far, the last one last
  pub events : List ChatEvent
  pub deliveries : List Delivery
  -- spawned and not yet run
  pub tasks : List BroadcastTask

unfoldable pub send_event : ChatEvent → ChatService → ChatService
send_event e s = record s { events = s.events ++ (e ∷ []) }

unfoldable pub deliver : List Delivery → ChatService → ChatService
deliver ds s = record s { deliveries = s.deliveries ++ ds }

module _ (ext : Externals) where
  unfoldable pub channel_model : DChannel → ChannelModel
  channel_model ch = record {
    id = ch.id;
    name = ch.name;
    owner_id = ch.owner_id;
    members =
        map
          (λ (m : ChannelMember). record {
            peer_id = m.peer_id;
            status = member_status_text m.status;
          })
          (decode_members ext.members_json ch.members);
    version = ch.version;
    status = channel_status_text ch.status;
    created_at = ch.created_at;
    updated_at = ch.updated_at;
  }

  unfoldable pub channels_updated_payload : ChatDb → Bytes
  channels_updated_payload db =
      ext.channels_json (map channel_model (get_channels db ChannelStatus.joined))

  unfoldable pub emit_channels_updated : ChatService → ChatService
  unfolding send_event
  emit_channels_updated s =
      send_event
        (record { event_type = ws_channels_updated; payload = channels_updated_payload s.db }) s
