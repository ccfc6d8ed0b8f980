-- ===== src/Packet/Parse.antt =====
-- src/main.rs, `parse_ip_packet_full`. The destination policy is a state that the call may count in.
pub mod Header
pub mod Sound
use swifttunnel_relay.Prelude.{
  ℕ, ◌+◌, ◌-◌, ◌*◌, ◌/◌, ◌%◌, ◌^◌, Bool, true, false, not, ◌&&◌, ◌||◌, Option, none, some, [],
  if◌then◌else◌, ltb, leb, eqb, Bytes, length, take, drop, slice, is_some_and,
}
use swifttunnel_relay.Addr.{Ipv4Addr, SocketAddr, v4}
use swifttunnel_relay.DestPolicy.Permits.{DestPolicy, permits}
use swifttunnel_relay.Packet.Destinations.{is_forbidden_dst, is_forbidden_dst_port}
use swifttunnel_relay.Packet.Reader.{
  Parse, got, rejected, panicked, ◌>>=◌, ◌>>◌, reject_if, read, read_slice, read_u16, read_ip,
}

abbrev pub ip_header_min : ℕ
ip_header_min = 20

abbrev pub udp_header_size : ℕ
udp_header_size = 8

abbrev pub tcp_header_min : ℕ
tcp_header_min = 20

pub record OriginalPacketInfo : Type 0 where
  pub tos : ℕ
  pub src_ip : Ipv4Addr
  pub src_port : ℕ
  pub dst_ip : Ipv4Addr
  pub dst_port : ℕ

pub data ParsedPacket : Type 0 where
  udp : SocketAddr → Bytes → OriginalPacketInfo → Bytes → ParsedPacket
  tcp : OriginalPacketInfo → Bytes → ParsedPacket
  fragment : ℕ → Ipv4Addr → Bytes → ParsedPacket
  forbidden_dst : ParsedPacket

-- what the function has read before it looks at the protocol; `packet` is cut to `total_len`
pub record IpHeader : Type 0 where
  pub packet : Bytes
  pub ihl : ℕ
  pub protocol : ℕ
  pub src_ip : Ipv4Addr
  pub dst_ip : Ipv4Addr
  pub fragment_bits : ℕ

unfoldable pub read_fields : Bytes → ℕ → Parse IpHeader
read_fields packet ihl = do
  protocol ← read packet 9
  src_ip ← read_ip packet 12
  dst_ip ← read_ip packet 16
  fragment_bits ← read_u16 packet 6
  got (record {
    packet = packet;
    ihl = ihl;
    protocol = protocol;
    src_ip = src_ip;
    dst_ip = dst_ip;
    fragment_bits = fragment_bits;
  })

unfoldable pub read_header : Bytes → Parse IpHeader
read_header packet = do
  reject_if (ltb (length packet) ip_header_min)
  first ← read packet 0
  reject_if (not (eqb (first / 16 % 16) 4))
  let ihl = first % 16 * 4
  reject_if (ltb ihl ip_header_min || ltb (length packet) ihl)
  total_len ← read_u16 packet 2
  reject_if (ltb total_len ihl || ltb (length packet) total_len)
  cut ← read_slice packet 0 total_len
  read_fields cut ihl

-- `if forbidden || !dest_policy::permits(protocol, dst, port)`: the policy is asked only when the
-- address and port tests pass.
unfoldable pub admit :
    DestPolicy → Bool → ℕ → Ipv4Addr → Option ℕ → ParsedPacket → DestPolicy × ParsedPacket
admit policy forbidden protocol dst port parsed =
    if forbidden
    then (policy, forbidden_dst)
    else (let (policy', ok) = permits policy protocol dst port in
        if ok then (policy', parsed) else (policy', forbidden_dst))

-- `fragment_bits & 0x2000` and `fragment_bits & 0x1FFF`
abbrev pub more_fragments : IpHeader → Bool
more_fragments h = eqb (h.fragment_bits / 0x2000 % 2) 1

abbrev pub fragment_offset : IpHeader → ℕ
fragment_offset h = h.fragment_bits % 0x2000

-- the port that a first fragment carries
unfoldable pub first_port : IpHeader → Parse (Option ℕ)
first_port h =
    if eqb (fragment_offset h) 0 && (eqb h.protocol 6 || eqb h.protocol 17)
    then (do
      reject_if (ltb (length h.packet) (h.ihl + 4))
      port ← read_u16 h.packet (h.ihl + 2)
      got (some port))
    else got none

unfoldable pub parse_fragment : DestPolicy → IpHeader → Parse (DestPolicy × ParsedPacket)
parse_fragment policy h = do
  dst_port ← first_port h
  got (
      admit policy
        (is_forbidden_dst h.dst_ip
          || (eqb h.protocol 17 && is_some_and dst_port is_forbidden_dst_port))
        h.protocol h.dst_ip dst_port (fragment h.protocol h.src_ip h.packet))

-- `&packet[start..end]`, or the empty slice
unfoldable pub read_payload : Bytes → ℕ → ℕ → Parse Bytes
read_payload packet first last = if ltb first last then read_slice packet first last else got []

unfoldable pub parse_udp : DestPolicy → IpHeader → Parse (DestPolicy × ParsedPacket)
parse_udp policy h = do
  let packet = h.packet
  let udp_start = h.ihl
  reject_if (ltb (length packet) (udp_start + udp_header_size))
  src_port ← read_u16 packet udp_start
  dst_port ← read_u16 packet (udp_start + 2)
  udp_len ← read_u16 packet (udp_start + 4)
  reject_if (ltb udp_len udp_header_size || ltb (length packet) (udp_start + udp_len))
  payload ← read_payload packet (udp_start + udp_header_size) (udp_start + udp_len)
  tos ← read packet 1
  got (
      admit policy (is_forbidden_dst h.dst_ip || is_forbidden_dst_port dst_port) h.protocol h.dst_ip
        (some dst_port)
        (udp (record { ip = v4 h.dst_ip; port = dst_port }) payload
          (record {
            tos = tos;
            src_ip = h.src_ip;
            src_port = src_port;
            dst_ip = h.dst_ip;
            dst_port = dst_port;
          })
          packet))

unfoldable pub parse_tcp : DestPolicy → IpHeader → Parse (DestPolicy × ParsedPacket)
parse_tcp policy h = do
  let packet = h.packet
  let tcp_start = h.ihl
  reject_if (ltb (length packet) (tcp_start + tcp_header_min))
  src_port ← read_u16 packet tcp_start
  dst_port ← read_u16 packet (tcp_start + 2)
  offset ← read packet (tcp_start + 12)
  let tcp_header_len = offset / 16 * 4
  reject_if (ltb tcp_header_len tcp_header_min || ltb (length packet) (tcp_start + tcp_header_len))
  tos ← read packet 1
  got (
      admit policy (is_forbidden_dst h.dst_ip) h.protocol h.dst_ip (some dst_port) (
        tcp
          (record {
            tos = tos;
            src_ip = h.src_ip;
            src_port = src_port;
            dst_ip = h.dst_ip;
            dst_port = dst_port;
          })
          packet))

unfoldable pub parse_ip_packet_full : DestPolicy → Bytes → Parse (DestPolicy × ParsedPacket)
parse_ip_packet_full policy packet = do
  h ← read_header packet
  if more_fragments h || not (eqb (fragment_offset h) 0)
      then parse_fragment policy h
      else if eqb h.protocol 17
      then parse_udp policy h
      else if eqb h.protocol 6
      then parse_tcp policy h
      else rejected
