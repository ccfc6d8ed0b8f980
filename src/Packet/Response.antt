-- ===== src/Packet/Response.antt =====
-- The IPv4 packet around a game server's answer: src/main.rs, `build_response_ip_packet_with_tos`, and
-- src/datapath_v2.rs, `write_response_ip_packet_into_with_tos`, which writes it into a pooled buffer.
pub mod Layout
pub mod Built
pub mod Parsed
use swifttunnel_relay.Prelude.{
  ℕ, zero, suc, ◌+◌, ◌/◌, ◌%◌, Option, none, some, List, [], ◌∷◌, ◌++◌, if◌then◌else◌, ltb, Bytes,
  length, set, take, drop, replicate,
}
use swifttunnel_relay.Addr.{Ipv4Addr, octets}
use swifttunnel_relay.Packet.Parse.{OriginalPacketInfo, ip_header_min, udp_header_size}
use swifttunnel_relay.Packet.Checksum.{calculate_ip_checksum}

-- `packet[i] = v` for consecutive positions, also what `copy_from_slice` does
unfoldable pub write_all : ℕ → Bytes → Bytes → Bytes
write_all i [] packet = packet
write_all i (v ∷ vs) packet = write_all (suc i) vs (set packet i v)

-- `(n >> 8) as u8` and `(n & 0xFF) as u8`
abbrev pub high_byte : ℕ → ℕ
high_byte n = n / 256 % 256

abbrev pub low_byte : ℕ → ℕ
low_byte n = n % 256

-- the IP header as it is written first, with the checksum field 0
unfoldable pub ip_header : OriginalPacketInfo → ℕ → ℕ → Bytes
ip_header original tos total_len =
    0x45
      ∷ tos
      ∷ high_byte total_len
      ∷ low_byte total_len
      ∷ 0
      ∷ 0
      ∷ 0x40
      ∷ 0
      ∷ 64
      ∷ 17
      ∷ 0
      ∷ 0
      ∷ octets original.dst_ip
    ++ octets original.src_ip

unfoldable pub udp_header : OriginalPacketInfo → ℕ → Bytes
udp_header original udp_len =
    high_byte original.dst_port
    ∷ low_byte original.dst_port
    ∷ high_byte original.src_port
    ∷ low_byte original.src_port
    ∷ high_byte udp_len
    ∷ low_byte udp_len
    ∷ 0
    ∷ 0
    ∷ []

-- the assignments to `packet`, in the order of the code; both functions have them
unfoldable pub fill : Bytes → Bytes → OriginalPacketInfo → ℕ → Bytes
fill packet udp_payload original tos =
    let udp_len = udp_header_size + length udp_payload in
    let total_len = ip_header_min + udp_len in
    let packet = write_all 0 (ip_header original tos total_len) packet in
    let ip_checksum = calculate_ip_checksum (take ip_header_min packet) in
    let packet = write_all 10 (high_byte ip_checksum ∷ low_byte ip_checksum ∷ []) packet in
    let packet = write_all ip_header_min (udp_header original udp_len) packet in
    write_all (ip_header_min + udp_header_size) udp_payload packet

unfoldable pub build_response_ip_packet_with_tos : Bytes → OriginalPacketInfo → ℕ → Bytes
build_response_ip_packet_with_tos udp_payload original tos =
    let total_len = ip_header_min + (udp_header_size + length udp_payload) in
    fill (replicate total_len 0) udp_payload original tos

unfoldable pub build_response_ip_packet : Bytes → OriginalPacketInfo → Bytes
build_response_ip_packet udp_payload original =
    build_response_ip_packet_with_tos udp_payload original original.tos

-- the result holds the buffer after the call and the number of bytes written
unfoldable pub write_response_ip_packet_into_with_tos :
    Bytes → Bytes → OriginalPacketInfo → ℕ → Option (Bytes × ℕ)
write_response_ip_packet_into_with_tos dst udp_payload original tos =
    let total_len = ip_header_min + (udp_header_size + length udp_payload) in
    if ltb (length dst) total_len
    then none
    else some (fill (take total_len dst) udp_payload original tos ++ drop total_len dst, total_len)

unfoldable pub write_response_ip_packet_into :
    Bytes → Bytes → OriginalPacketInfo → Option (Bytes × ℕ)
write_response_ip_packet_into dst udp_payload original =
    write_response_ip_packet_into_with_tos dst udp_payload original original.tos
