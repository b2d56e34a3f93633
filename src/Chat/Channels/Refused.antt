-- ===== src/Chat/Channels/Refused.antt =====
-- src/chat/channel/handler.rs: messages that are refused.
use plain_rs.Common.{◌≡◌, true, false, Bytes, arith}
use plain_rs.Chat.Enums.{ChannelSystemMessageType}
use plain_rs.Chat.Messages.{ChannelInvite}
use plain_rs.Chat.Service.{Externals, ChatService}
use plain_rs.Chat.Handler.Owner.{handle_invite_accept, handle_invite_decline, handle_leave}
use plain_rs.Chat.Handler.Invite.{handle_invite, store_invite}
use plain_rs.Chat.Handler.Member.{handle_update, handle_kick}
use plain_rs.Chat.Handler.{handle, dispatch}

module _ (ext : Externals) (now from_id payload kp_bytes : Bytes) (s : ChatService) where
  store_invite-true : (msg : ChannelInvite) → (store_invite ext now from_id msg s).0 ≡ true
  unfolding store_invite
  store_invite-true msg = ground arith

  dispatch_refused :
      (msg_type : ChannelSystemMessageType)
      → (dispatch ext now from_id msg_type payload kp_bytes s).0 ≡ false
      → (dispatch ext now from_id msg_type payload kp_bytes s).1 ≡ s
  unfolding dispatch handle_update handle_kick handle_invite_accept handle_invite_decline
      handle_leave handle_invite store_invite
  dispatch_refused ChannelSystemMessageType.invite h = ground arith
  dispatch_refused ChannelSystemMessageType.invite_accept h = ground arith
  dispatch_refused ChannelSystemMessageType.invite_decline h = ground arith
  dispatch_refused ChannelSystemMessageType.update h = ground arith
  dispatch_refused ChannelSystemMessageType.kick h = ground arith
  dispatch_refused ChannelSystemMessageType.leave h = ground arith

  -- A message that is answered with `false` changes nothing: no row is written, no event sent, no
  -- cache rebuilt and no task spawned.
  pub handle_refused :
      (msg_type : ChannelSystemMessageType)
      → (handle ext now from_id msg_type payload kp_bytes s).0 ≡ false
      → (handle ext now from_id msg_type payload kp_bytes s).1 ≡ s
  unfolding handle
  handle_refused msg_type h = ground (arith, dispatch_refused msg_type)
