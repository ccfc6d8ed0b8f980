-- ===== src/Examples/Packets.antt =====
-- Concrete packets (src/main.rs and src/datapath_v2.rs).
use swifttunnel_relay.Prelude.{
  ◌≡◌, ◌≢◌, refl, arith, [], ◌∷◌, ◌++◌, some, none, Bytes, text, replicate, take, drop,
  if◌then◌else◌, ltb, slice,
}
use swifttunnel_relay.Addr.{ipv4, v4}
use swifttunnel_relay.DestPolicy.Permits.{DestPolicy, off, permits}
use swifttunnel_relay.Packet.Destinations.{
  is_forbidden_dst, is_forbidden_dst_port, is_private, is_loopback, is_link_local, is_multicast,
  is_broadcast, is_unspecified, is_this_network_ipv4, is_reserved_ipv4, is_cgnat_ipv4,
}
use swifttunnel_relay.Packet.Reader.{got, panicked, read, read_u16, read_ip, read_slice}
use swifttunnel_relay.Packet.Parse.{
  OriginalPacketInfo, ParsedPacket, udp, parse_ip_packet_full, read_header, read_fields, parse_udp,
  read_payload, admit,
}
use swifttunnel_relay.Packet.Parse.Sound.{IsVerdict, parse-ne-panicked, parse-IsVerdict}
use swifttunnel_relay.Packet.Checksum.{calculate_ip_checksum}
use swifttunnel_relay.Packet.Response.{
  build_response_ip_packet_with_tos, write_response_ip_packet_into_with_tos,
}
use swifttunnel_relay.Packet.Response.Built.{write-build, checksum-build}
use swifttunnel_relay.Packet.Response.Parsed.{swapped, parse-build}

abbrev policy : DestPolicy
policy = record {
  mode = off;
  udp = [];
  tcp = [];
  tcp_ports = [];
  sample_every = 16;
  counters = record {
    udp_unlisted = 0;
    tcp_unlisted_network = 0;
    tcp_unlisted_port = 0;
    dropped = 0;
  };
  tick = 0;
  tally = record { networks = []; tcp_ports = []; overflow = 0 };
}

-- A UDP packet of 30 bytes from 10.0.0.2:1000 to 128.116.1.1:5000 with two bytes behind it.
abbrev packet : Bytes
packet =
    0x45 ∷ 0 ∷ 0 ∷ 30 ∷ 0 ∷ 0 ∷ 0 ∷ 0 ∷ 64 ∷ 17 ∷ 0 ∷ 0 ∷ 10 ∷ 0 ∷ 0 ∷ 2 ∷ 128 ∷ 116 ∷ 1 ∷ 1 ∷ 3
    ∷ 0xe8 ∷ 0x13 ∷ 0x88 ∷ 0 ∷ 10 ∷ 0 ∷ 0 ∷ 0x61 ∷ 0x62 ∷ 9 ∷ 9 ∷ []

abbrev info : OriginalPacketInfo
info = record {
  tos = 0;
  src_ip = ipv4 10 0 0 2;
  src_port = 1000;
  dst_ip = ipv4 128 116 1 1;
  dst_port = 5000;
}

abbrev parsed : DestPolicy × ParsedPacket
parsed = (
  policy,
  udp (record { ip = v4 (ipv4 128 116 1 1); port = 5000 }) (0x61 ∷ 0x62 ∷ []) info (take 30 packet),
)

packet_parses : parse_ip_packet_full policy packet ≡ got parsed
unfolding parse_ip_packet_full read_header read_fields parse_udp read_payload admit read read_u16
    read_ip read_slice slice is_forbidden_dst is_forbidden_dst_port is_private is_loopback
    is_link_local is_multicast is_broadcast is_unspecified is_this_network_ipv4 is_reserved_ipv4
    is_cgnat_ipv4 permits
packet_parses = refl

parse-ne-panicked_example : parse_ip_packet_full policy (take 21 packet) ≢ panicked
parse-ne-panicked_example = parse-ne-panicked policy (take 21 packet)

parse-IsVerdict_example : IsVerdict policy packet parsed
parse-IsVerdict_example = parse-IsVerdict policy packet parsed packet_parses

write-build_example :
    write_response_ip_packet_into_with_tos (replicate 40 7) (text "pong") info 8 ≡ (
      if ltb 40 32
      then none
      else some
          (build_response_ip_packet_with_tos (text "pong") info 8 ++ drop 32 (replicate 40 7), 32))
write-build_example = write-build (replicate 40 7) (text "pong") info 8

checksum-build_example :
    calculate_ip_checksum (take 20 (build_response_ip_packet_with_tos (text "pong") info 8)) ≡ 0
checksum-build_example =
    checksum-build (text "pong") info 8 (omega arith)
      (omega arith, (omega arith, (omega arith, (omega arith, tt))))
      (omega arith, (omega arith, (omega arith, (omega arith, tt))))

-- a client at an address that no rule blocks
abbrev public_info : OriginalPacketInfo
public_info = record info { src_ip = ipv4 128 116 1 9 }

parse-build_example :
    parse_ip_packet_full policy (build_response_ip_packet_with_tos (text "pong") public_info 8)
    ≡ got (
      policy,
      udp
          (record { ip = v4 (ipv4 128 116 1 9); port = 1000 })
          (text "pong")
          (swapped public_info 8)
          (build_response_ip_packet_with_tos (text "pong") public_info 8),
    )
unfolding admit is_forbidden_dst is_forbidden_dst_port is_private is_loopback is_link_local
    is_multicast is_broadcast is_unspecified is_this_network_ipv4 is_reserved_ipv4 is_cgnat_ipv4
    permits
parse-build_example =
    parse-build policy (text "pong") public_info 8 (omega arith) (omega arith) (omega arith)
