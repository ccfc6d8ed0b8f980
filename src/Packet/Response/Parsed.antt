-- ===== src/Packet/Response/Parsed.antt =====
-- A built packet, parsed: `build_response_ip_packet_with_tos` and `parse_ip_packet_full` of src/main.rs.
use swifttunnel_relay.Prelude.{
  ℕ, ◌+◌, ◌-◌, take, drop, take_all, false, true, ◌≡◌, ◌≤◌, ◌<◌, ap, refl, [], ◌∷◌, arith, Bytes,
  some, length, ltb, ◌||◌, be16, slice, slice-some, le_or_lt, inl, inr,
}
use swifttunnel_relay.Addr.{v4}
use swifttunnel_relay.DestPolicy.Permits.{DestPolicy}
use swifttunnel_relay.Packet.Destinations.{is_forbidden_dst, is_forbidden_dst_port}
use swifttunnel_relay.Packet.Reader.{got, read, read_u16, read_ip, read_slice}
use swifttunnel_relay.Packet.Parse.{
  OriginalPacketInfo, parse_ip_packet_full, read_header, read_fields, parse_udp, read_payload,
  admit, udp, IpHeader,
}
use swifttunnel_relay.Packet.Response.{
  build_response_ip_packet_with_tos, high_byte, low_byte, udp_header,
}
use swifttunnel_relay.Packet.Response.Built.{build_lem, response_packet, sealed_header}

-- The way back: source and destination have changed places.
abbrev pub swapped : OriginalPacketInfo → ℕ → OriginalPacketInfo
swapped original tos = record {
  tos = tos;
  src_ip = original.dst_ip;
  src_port = original.dst_port;
  dst_ip = original.src_ip;
  dst_port = original.src_port;
}

abbrev header_of : Bytes → OriginalPacketInfo → IpHeader
header_of packet original = record {
  packet = packet;
  ihl = 20;
  protocol = 17;
  src_ip = original.dst_ip;
  dst_ip = original.src_ip;
  fragment_bits = 0x4000;
}

ltb_yes : (m n : ℕ) → m < n → ltb m n ≡ true
ltb_yes m n h = ground arith

ltb_no : (n m : ℕ) → n ≤ m → ltb m n ≡ false
ltb_no n m h = ground arith

join : (n : ℕ) → n < 65536 → be16 (high_byte n) (low_byte n) ≡ n
join n h = omega arith

read_slice_all : (p : Bytes) (n : ℕ) → length p ≡ n → read_slice p 0 n ≡ got p
unfolding read_slice slice
read_slice_all p n e =
    let all : take (n - 0) (drop 0 p) ≡ p = take_all (n - 0) p (omega arith) in ground (arith, all)

read_header_lem :
    (payload : Bytes) (original : OriginalPacketInfo) (tos : ℕ)
    → 28 + length payload < 65536
    → read_header (response_packet payload original tos)
      ≡ got (header_of (response_packet payload original tos) original)
unfolding response_packet sealed_header udp_header read_header read_fields read read_u16 read_ip
read_header_lem payload original tos h =
    rw
      (
        long,
        join (28 + length payload) h,
        ltb_no 20 (28 + length payload) (omega arith),
        ltb_no (28 + length payload) (28 + length payload) (omega arith),
        read_slice_all packet (28 + length payload) long,
      )
      refl
  where
    packet : Bytes
    packet = response_packet payload original tos

    long : length packet ≡ 28 + length payload
    long = omega arith

empty : (payload : Bytes) → length payload ≡ 0 → [] ≡ payload
empty [] h = refl
empty (b ∷ rest) h = absurd (omega arith)

read_payload_lem :
    (payload : Bytes) (original : OriginalPacketInfo) (tos : ℕ)
    → read_payload (response_packet payload original tos) 28 (28 + length payload) ≡ got payload
unfolding read_payload read_slice response_packet sealed_header udp_header
read_payload_lem payload original tos =
    let packet = response_packet payload original tos in
    let cut = slice-some packet 28 (28 + length payload) (omega arith) (omega arith) in
    let all : take (28 + length payload - 28) payload ≡ payload =
      take_all (28 + length payload - 28) payload (omega arith) in
    elim (le_or_lt (length payload) 0) [
      | inl none_left ↦
          rw (ltb_no (28 + length payload) 28 (omega arith)) (ap got (empty payload (omega arith)))
      | inr more ↦ rw (ltb_yes 28 (28 + length payload) (omega arith), cut, all) refl
    ]

parse_udp_lem :
    (policy : DestPolicy) (payload : Bytes) (original : OriginalPacketInfo) (tos : ℕ)
    → 28 + length payload < 65536
    → original.src_port < 65536
    → original.dst_port < 65536
    → parse_udp policy (header_of (response_packet payload original tos) original)
      ≡ got (
          admit policy
            (is_forbidden_dst original.src_ip || is_forbidden_dst_port original.src_port)
            17
            original.src_ip
            (some original.src_port)
            (udp
              (record { ip = v4 original.src_ip; port = original.src_port })
              payload
              (swapped original tos)
              (response_packet payload original tos)))
unfolding parse_udp response_packet sealed_header udp_header read read_u16
parse_udp_lem policy payload original tos h hs hd =
    rw
      (
        long,
        join original.src_port hs,
        join original.dst_port hd,
        join (8 + length payload) (omega arith),
        total,
        ltb_no 28 (28 + length payload) (omega arith),
        ltb_no 8 (8 + length payload) (omega arith),
        ltb_no (28 + length payload) (28 + length payload) (omega arith),
        read_payload_lem payload original tos,
      )
      refl
  where
    packet : Bytes
    packet = response_packet payload original tos

    long : length packet ≡ 28 + length payload
    long = omega arith

    total : 20 + (8 + length payload) ≡ 28 + length payload
    total = omega arith

-- What is built for a response, with the swapped addresses and ports, parses, and the parser judges the
-- client's address and port as a destination. Where neither is blocked and the policy permits them, it
-- gives back the type of service, the addresses, the ports and the payload; otherwise, and so for a
-- client at a private address, the verdict is that the destination is forbidden.
pub parse-build :
    (policy : DestPolicy) (udp_payload : Bytes) (original : OriginalPacketInfo) (tos : ℕ)
    → 28 + length udp_payload < 65536
    → original.src_port < 65536
    → original.dst_port < 65536
    → parse_ip_packet_full policy (build_response_ip_packet_with_tos udp_payload original tos)
      ≡ got (
          admit policy
            (is_forbidden_dst original.src_ip || is_forbidden_dst_port original.src_port)
            17
            original.src_ip
            (some original.src_port)
            (udp
              (record { ip = v4 original.src_ip; port = original.src_port })
              udp_payload
              (swapped original tos)
              (build_response_ip_packet_with_tos udp_payload original tos)))
unfolding parse_ip_packet_full
parse-build policy payload original tos h hs hd =
    rw (build_lem payload original tos, read_header_lem payload original tos h)
      (parse_udp_lem policy payload original tos h hs hd)
