-- ===== src/Packet.antt =====
-- The inner IPv4 packets (src/main.rs): `Destinations` are the addresses and ports that are never
-- forwarded to, `Parse` is `parse_ip_packet_full`, `Checksum` the header checksum, `Response`
-- the packets that are built for a client.
pub mod Destinations
pub mod Reader
pub mod Parse
pub mod Checksum
pub mod Response
pub mod Resolve
