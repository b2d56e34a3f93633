-- ===== src/Mdns.antt =====
-- src/mdns: the codec of DNS messages.
pub mod Codec
pub mod Message
pub mod RoundTrip
pub mod Safety
pub mod Fuel
