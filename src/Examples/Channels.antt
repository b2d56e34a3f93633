-- ===== src/Examples/Channels.antt =====
-- src/chat on a peer with a channel of its own and a channel of another peer.
use plain_rs.Common.{
  ◌≡◌, ◌≢◌, ◌↔◌, refl, sym, ◌∙◌, true, false, List, [], ◌∷◌, some, Bytes, codes, arith, str_eq,
  str_eq_iff,
}
use plain_rs.Common.Int.{pos, ◌≤ℤ◌, +ℤ_parts}
use plain_rs.Utils.Base64.{base64_encode, base64_decode}
use plain_rs.Utils.Base64.RoundTrip.{base64_decode-base64_encode}
use plain_rs.Chat.Enums.{
  ok, DeviceType, device_type_of, device_type_text, ChannelStatus, ChannelSystemMessageType,
  peer_status_of, peer_status_text, channel_status_of, channel_status_text,
}
use plain_rs.Chat.Enums.Texts.{device_type_reads_back}
use plain_rs.Chat.Messages.{
  new_member, pending_member, has_member, find_member, ChannelInviteAccept,
}
use plain_rs.Chat.Rows.{
  DPeer, DChannel, new_peer, row_to_peer, row_to_channel, get_peer_by_id, get_channel_by_id,
}
use plain_rs.Chat.Service.{ChatService}
use plain_rs.Chat.Sender.{own_public_key}
use plain_rs.Chat.Handler.{handle, dispatch}
use plain_rs.Chat.Handler.Member.{handle_kick, kick_guards}
use plain_rs.Chat.Channels.Effect.{StepsTo}
use plain_rs.Chat.Channels.Handled.{handle-steps}
use plain_rs.Chat.Channels.Authority.{handle_authority, handle_version}
use plain_rs.Chat.Channels.Owned.{Received, receive_all, IsOwned, receive_all-IsOwned}
use plain_rs.Chat.Channels.Refused.{handle_refused}
use plain_rs.Chat.Channels.Roster.{Rosters, after, accept_joins, leave_removes}
use plain_rs.Examples.Wire.{the_externals, members-ReadsBack, repeat}

abbrev pub the_kp : Bytes
the_kp = repeat 64 7

abbrev pub owner : DPeer
owner = record (new_peer [] (codes "a") (codes "Ann") [] 0 DeviceType.phone) {
  public_key = own_public_key the_kp;
}

abbrev channel_of : Bytes → Bytes → DChannel
channel_of id owner_id = record {
  id = id;
  name = codes "Talk";
  owner_id = owner_id;
  members =
      the_externals.members_json.to_string
        (new_member (codes "b") ∷ pending_member (codes "d") ∷ []);
  key = [];
  version = pos 1;
  status = ChannelStatus.joined;
  created_at = [];
  updated_at = [];
}

-- The channel `c` of `a`, and the channel `o` of our own.
abbrev pub theirs : DChannel
theirs = channel_of (codes "c") (codes "a")

abbrev pub own_channel : DChannel
own_channel = channel_of (codes "o") (codes "b")

abbrev pub the_service : ChatService
the_service = record {
  identity = record { client_id = codes "b"; device_name = codes "Bob"; ed25519_keypair = [] };
  wire_device_type = DeviceType.phone;
  db = record { peers = owner ∷ []; channels = theirs ∷ own_channel ∷ []; chats = [] };
  peer_key_cache = [];
  channel_key_cache = [];
  events = [];
  deliveries = [];
  tasks = [];
}

pub knows_theirs : get_channel_by_id the_service.db (codes "c") ≡ some theirs
unfolding get_channel_by_id row_to_channel channel_status_of channel_status_text str_eq
knows_theirs = refl

knows_own : get_channel_by_id the_service.db (codes "o") ≡ some own_channel
unfolding get_channel_by_id row_to_channel channel_status_of channel_status_text str_eq
knows_own = refl

pub knows_owner : get_peer_by_id the_service.db (codes "a") ≡ some owner
unfolding get_peer_by_id row_to_peer peer_status_of peer_status_text device_type_of device_type_text
    new_peer str_eq
knows_owner = refl

true_not_false : true ≢ false
true_not_false = λ e. cc

str_apart : (a b : Bytes) → str_eq a b ≡ false → a ≢ b
str_apart a b h = λ e. true_not_false (sym ((str_eq_iff a b).1 e) ∙ h)

a_apart_b : codes "a" ≢ codes "b"
unfolding str_eq
a_apart_b = str_apart (codes "a") (codes "b") refl

a_apart_d : codes "a" ≢ codes "d"
unfolding str_eq
a_apart_d = str_apart (codes "a") (codes "d") refl

d_apart_b : codes "d" ≢ codes "b"
unfolding str_eq
d_apart_b = str_apart (codes "d") (codes "b") refl

base64_decode-base64_encode_example :
    base64_decode (base64_encode (77 ∷ 97 ∷ 110 ∷ 255 ∷ [])) ≡ 77 ∷ 97 ∷ 110 ∷ 255 ∷ []
base64_decode-base64_encode_example =
    base64_decode-base64_encode (77 ∷ 97 ∷ 110 ∷ 255 ∷ [])
      (omega arith, (omega arith, (omega arith, (omega arith, tt))))

device_type_reads_back_example :
    (device_type_of (device_type_text DeviceType.nas) ≡ ok DeviceType.nas)
    ↔ (DeviceType.nas ≢ DeviceType.nas)
device_type_reads_back_example = device_type_reads_back DeviceType.nas

abbrev leave_own : Bytes
leave_own = the_externals.leave_json.to_string (record { channel_id = codes "o" })

handle-steps_example : StepsTo the_externals [] (codes "b") (codes "d") own_channel (
    get_channel_by_id
      (handle the_externals []
        (codes "d")
        ChannelSystemMessageType.leave
        leave_own
        []
        the_service).1.db
      (codes "o"))
handle-steps_example =
    handle-steps the_externals [] (codes "d") leave_own [] the_service
      ChannelSystemMessageType.leave (codes "o") own_channel knows_own

handle_authority_example :
    get_channel_by_id
      (handle the_externals []
        (codes "d")
        ChannelSystemMessageType.leave
        leave_own
        []
        the_service).1.db
      (codes "c")
    ≡ some theirs
handle_authority_example =
    handle_authority the_externals [] (codes "d") leave_own [] the_service
      ChannelSystemMessageType.leave (codes "c") theirs knows_theirs refl a_apart_b a_apart_d

handle_version_example :
    (ch' : DChannel) × (get_channel_by_id
        (handle the_externals []
          (codes "d")
          ChannelSystemMessageType.leave
          leave_own
          []
          the_service).1.db
        (codes "o")
      ≡ some ch')
    × (pos 1 ≤ℤ ch'.version)
    × (ch'.owner_id ≡ codes "b")
    × (ch'.key ≡ [])
handle_version_example =
    handle_version the_externals [] (codes "d") leave_own [] the_service
      ChannelSystemMessageType.leave (codes "o") own_channel knows_own refl refl

-- A kick of a peer that is not the owner, and a member that leaves.
abbrev two_messages : List Received
two_messages =
    (record {
      now = [];
      from_id = codes "d";
      msg_type = ChannelSystemMessageType.kick;
      payload = leave_own;
    })
    ∷ (record {
      now = [];
      from_id = codes "d";
      msg_type = ChannelSystemMessageType.leave;
      payload = leave_own;
    })
    ∷ []

receive_all-IsOwned_example :
    (ch' : DChannel) × (get_channel_by_id
        (receive_all the_externals two_messages the_service).db
        (codes "o")
      ≡ some ch')
    × IsOwned (codes "b") 2 own_channel ch'
receive_all-IsOwned_example =
    receive_all-IsOwned the_externals two_messages the_service (codes "o") own_channel
      (d_apart_b, (d_apart_b, tt)) knows_own refl refl (ground (arith, +ℤ_parts (pos 1) (pos 2)))

not_a_kick :
    (handle the_externals [] (codes "d") ChannelSystemMessageType.kick [] [] the_service).0 ≡ false
unfolding handle dispatch handle_kick kick_guards
not_a_kick = refl

handle_refused_example :
    (handle the_externals [] (codes "d") ChannelSystemMessageType.kick [] [] the_service).1
    ≡ the_service
handle_refused_example =
    handle_refused the_externals [] (codes "d") [] [] the_service ChannelSystemMessageType.kick
      not_a_kick

abbrev accept_of_d : ChannelInviteAccept
accept_of_d = record {
  channel_id = codes "o";
  public_key = [];
  name = codes "Dan";
  device_type = DeviceType.tv;
}

-- What remains of the peer `d` once its answer is in.
accept_joins_example :
    Rosters the_externals members-ReadsBack []
      (codes "d")
      (the_externals.accept_json.to_string accept_of_d)
      []
      the_service
      own_channel
      refl
      (codes "o")
      (after the_externals members-ReadsBack []
        (codes "d")
        (the_externals.accept_json.to_string accept_of_d)
        []
        the_service
        own_channel
        refl
        ChannelSystemMessageType.invite_accept)
      (λ ms. find_member ms (codes "d") ≡ some (new_member (codes "d")))
accept_joins_example =
    accept_joins the_externals members-ReadsBack [] (codes "d")
      (the_externals.accept_json.to_string accept_of_d) [] the_service own_channel refl accept_of_d
      refl refl knows_own

leave_removes_example :
    Rosters the_externals members-ReadsBack []
      (codes "d")
      leave_own
      []
      the_service
      own_channel
      refl
      (codes "o")
      (after the_externals members-ReadsBack []
        (codes "d")
        leave_own
        []
        the_service
        own_channel
        refl
        ChannelSystemMessageType.leave)
      (λ ms. has_member ms (codes "d") ≡ false)
leave_removes_example =
    leave_removes the_externals members-ReadsBack [] (codes "d") leave_own [] the_service
      own_channel refl (record { channel_id = codes "o" }) refl knows_own
