-- ===== src/Chat/Channels.antt =====
-- src/chat/channel: what a message may do to a channel, and what follows for its members.
pub mod Effect
pub mod Handled
pub mod Authority
pub mod Owned
pub mod Refused
pub mod Roster
pub mod Sealed
pub mod Arrives
pub mod Dissolved
