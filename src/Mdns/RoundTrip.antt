-- ===== src/Mdns/RoundTrip.antt =====
-- Names and queries of src/mdns/packet_codec.rs, read back from what was written.
pub mod Names
pub mod Query
