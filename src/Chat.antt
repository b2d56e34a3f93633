-- ===== src/Chat.antt =====
-- src/chat: the channels of the chat, their rows, messages and operations.
pub mod Enums
pub mod Messages
pub mod Rows
pub mod Service
pub mod Sender
pub mod Handler
pub mod Delivery
pub mod Ops
pub mod Channels
pub mod Signing
pub mod Transport
pub mod Relay
pub mod PeerAuth
