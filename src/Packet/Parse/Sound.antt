-- ===== src/Packet/Parse/Sound.antt =====
-- What `parse_ip_packet_full` (src/main.rs) makes of a packet.
use swifttunnel_relay.Prelude.{
  ℕ, ap, sym, ◌+◌, ◌*◌, ◌/◌, ◌%◌, ◌<◌, ◌≡◌, ◌≢◌, ◌≤◌, ◌⊎◌, inl, inr, refl, Bool, Bool-cases,
  eq_or_ne, true, false, not, ◌&&◌, ◌||◌, arith, Bytes, length, ltb, eqb, get_elem?, Option, some,
  none, is_some_and,
}
use swifttunnel_relay.Addr.{Ipv4Addr, v4}
use swifttunnel_relay.DestPolicy.Permits.{DestPolicy, permits}
use swifttunnel_relay.Packet.Destinations.{is_forbidden_dst, is_forbidden_dst_port}
use swifttunnel_relay.Packet.Reader.{
  got, panicked, read, read_u16, Gives, Gives-bind, Gives-if, Gives-weaken, Gives-ne-panicked,
  Gives-result, Gives-reject_if, Gives-read, Gives-read_u16, Gives-read_slice, U16At, IsPart,
  IsPart-empty,
}
use swifttunnel_relay.Packet.Parse.{
  IpHeader, read_header, parse_ip_packet_full, ParsedPacket, udp, tcp, fragment, forbidden_dst,
  parse_fragment, parse_udp, parse_tcp, admit, first_port, fragment_offset, more_fragments,
  read_payload, udp_header_size, tcp_header_min,
}
use swifttunnel_relay.Packet.Parse.Header.{IsHeader, IsHeaderOf, read_header_lem}

-- The relay may send to this destination: the address is not blocked, nor is a UDP port, and the
-- policy, asked once, permits it and is `after` from then on.
pub record Forwardable (policy after : DestPolicy) (protocol : ℕ) (dst : Ipv4Addr) (port : Option ℕ)
    : Type 0 where
  pub address : is_forbidden_dst dst ≡ false
  pub udp_port : (protocol ≢ 17) ⊎ (is_some_and port is_forbidden_dst_port ≡ false)
  pub permitted : permits policy protocol dst port ≡ (after, true)

-- The address is blocked, or the UDP port is.
abbrev pub Barred : ℕ → Ipv4Addr → Option ℕ → Type 0
Barred protocol dst port =
    (is_forbidden_dst dst ≡ true)
    ⊎ ((protocol ≡ 17) × (is_some_and port is_forbidden_dst_port ≡ true))

-- One of the three rules blocks this destination: the policy, which is `after` from then on, is asked
-- where the other two let it pass.
abbrev pub Blocked : DestPolicy → DestPolicy → ℕ → Ipv4Addr → Option ℕ → Type 0
Blocked policy after protocol dst port =
    (Barred protocol dst port × (after ≡ policy))
    ⊎ (permits policy protocol dst port ≡ (after, false))

-- Neither the bit for more fragments nor an offset is set: the low 14 bits of the two bytes are zero.
abbrev pub IsWhole : IpHeader → Type 0
IsWhole h = h.fragment_bits % 0x4000 ≡ 0

abbrev pub IsFragment : IpHeader → Type 0
IsFragment h = 0 < h.fragment_bits % 0x4000

-- The destination port that a packet shows: TCP and UDP packets and their first fragments show one, the
-- later fragments and the other protocols none.
abbrev pub PortOf : IpHeader → Option ℕ → Type 0
PortOf h none = (h.fragment_bits % 0x2000 ≢ 0) ⊎ ((h.protocol ≢ 6) × (h.protocol ≢ 17))
PortOf h (some port) =
    (h.fragment_bits % 0x2000 ≡ 0)
    × ((h.protocol ≡ 6) ⊎ (h.protocol ≡ 17))
    × U16At h.packet (h.ihl + 2) port

-- A verdict on a packet whose IP header is `h`.
abbrev pub Judges : DestPolicy → IpHeader → DestPolicy × ParsedPacket → Type 0
Judges policy h (after, udp addr payload info raw) =
    (raw ≡ h.packet)
    × IsWhole h
    × (h.protocol ≡ 17)
    × (get_elem? raw 1 ≡ some info.tos)
    × (addr ≡ record { ip = v4 h.dst_ip; port = info.dst_port })
    × (info.src_ip ≡ h.src_ip)
    × (info.dst_ip ≡ h.dst_ip)
    × U16At raw h.ihl info.src_port
    × U16At raw (h.ihl + 2) info.dst_port
    × ((udp_len : ℕ) × U16At raw (h.ihl + 4) udp_len
        × IsPart raw (h.ihl + 8) (h.ihl + udp_len) payload)
    × Forwardable policy after 17 h.dst_ip (some info.dst_port)
Judges policy h (after, tcp info raw) =
    (raw ≡ h.packet)
    × IsWhole h
    × (h.protocol ≡ 6)
    × (get_elem? raw 1 ≡ some info.tos)
    × (h.ihl + 20 ≤ length raw)
    × (info.src_ip ≡ h.src_ip)
    × (info.dst_ip ≡ h.dst_ip)
    × U16At raw h.ihl info.src_port
    × U16At raw (h.ihl + 2) info.dst_port
    × Forwardable policy after 6 h.dst_ip (some info.dst_port)
Judges policy h (after, fragment protocol src raw) =
    (raw ≡ h.packet)
    × IsFragment h
    × (protocol ≡ h.protocol)
    × (src ≡ h.src_ip)
    × ((port : Option ℕ) × PortOf h port × Forwardable policy after protocol h.dst_ip port)
Judges policy h (after, forbidden_dst) =
    (port : Option ℕ) × PortOf h port × Blocked policy after h.protocol h.dst_ip port

true_or : (a b : Bool) → a || b ≡ true → (a ≡ true) ⊎ (b ≡ true)
true_or true b e = inl refl
true_or false b e = inr e

false_or : (a b : Bool) → a || b ≡ false → (a ≡ false) × (b ≡ false)
false_or true b e = cc
false_or false b e = (refl, e)

-- Either verdict of the tests that end every branch.
admit_lem :
    (policy : DestPolicy) (h : IpHeader) (forbidden : Bool) (port : Option ℕ)
    (parsed : ParsedPacket)
    → PortOf h port
    → (forbidden ≡ true → Barred h.protocol h.dst_ip port)
    → ((after : DestPolicy)
        → forbidden ≡ false
        → permits policy h.protocol h.dst_ip port ≡ (after, true)
        → Judges policy h (after, parsed))
    → Judges policy h (admit policy forbidden h.protocol h.dst_ip port parsed)
unfolding admit
admit_lem policy h true port parsed q b k = (port, q, inl (b refl, refl))
admit_lem policy h false port parsed q b k =
    elim (Bool-cases (permits policy h.protocol h.dst_ip port).1) [
      | inl e ↦ rw e (
          k (permits policy h.protocol h.dst_ip port).0 refl
            (ap (λ b. ((permits policy h.protocol h.dst_ip port).0, b)) e))
      | inr e ↦ rw e (port, q, inr (ap (λ b. ((permits policy h.protocol h.dst_ip port).0, b)) e))
    ]

parse_udp_lem :
    (policy : DestPolicy) (h : IpHeader)
    → IsHeader h
    → IsWhole h
    → h.protocol ≡ 17
    → Gives (Judges policy h) (parse_udp policy h)
unfolding parse_udp read_payload
parse_udp_lem policy h is entire udp_is =
    Gives-reject_if P (ltb (length h.packet) (h.ihl + udp_header_size)) _ λ room.
      Gives-bind P (U16At h.packet h.ihl) (read_u16 h.packet h.ihl) _
        (Gives-read_u16 h.packet h.ihl (ground (arith, room)))
        λ src es.
          Gives-bind P (U16At h.packet (h.ihl + 2)) (read_u16 h.packet (h.ihl + 2)) _
            (Gives-read_u16 h.packet (h.ihl + 2) (ground (arith, room)))
            λ dst ed.
              Gives-bind P (U16At h.packet (h.ihl + 4)) (read_u16 h.packet (h.ihl + 4)) _
                (Gives-read_u16 h.packet (h.ihl + 4) (ground (arith, room)))
                λ len el.
                  Gives-reject_if P (ltb len udp_header_size || ltb (length h.packet) (h.ihl + len))
                    _
                    λ fits.
                      Gives-bind P (IsPart h.packet (h.ihl + 8) (h.ihl + len))
                        (read_payload h.packet (h.ihl + udp_header_size) (h.ihl + len)) _
                        (Gives-if (IsPart h.packet (h.ihl + 8) (h.ihl + len))
                          (ltb (h.ihl + 8) (h.ihl + len)) _ _
                          (λ _.
                            Gives-read_slice h.packet (h.ihl + 8) (h.ihl + len)
                              (ground (arith, fits)) (ground (arith, fits)))
                          (λ e.
                            let n : len ≡ 8 = ground (arith, e, fits) in
                            rw n (IsPart-empty h.packet (h.ihl + 8) (ground (arith, room)))))
                        λ payload ep.
                          Gives-bind P (λ tos. get_elem? h.packet 1 ≡ some tos) (read h.packet 1) _
                            (Gives-read h.packet 1 (ground (arith, room, is.room)))
                            λ tos et.
                              admit_lem policy h
                                (is_forbidden_dst h.dst_ip || is_forbidden_dst_port dst) (some dst)
                                _ (omega (arith, entire), inr udp_is, ed)
                                (λ b. elim (true_or (is_forbidden_dst h.dst_ip) _ b) [
                                  | inl e ↦ inl e
                                  | inr e ↦ inr (udp_is, e)
                                ])
                                λ after ok permitted. (
                                  refl,
                                  entire,
                                  udp_is,
                                  et,
                                  refl,
                                  refl,
                                  refl,
                                  es,
                                  ed,
                                  (len, el, ep),
                                  record {
                                    address = (false_or _ _ ok).0;
                                    udp_port = inr (false_or _ _ ok).1;
                                    permitted = rw (sym udp_is) permitted;
                                  },
                                )
  where
    P : DestPolicy × ParsedPacket → Type 0
    P = Judges policy h

parse_tcp_lem :
    (policy : DestPolicy) (h : IpHeader)
    → IsHeader h
    → IsWhole h
    → h.protocol ≡ 6
    → Gives (Judges policy h) (parse_tcp policy h)
unfolding parse_tcp
parse_tcp_lem policy h is entire tcp_is =
    Gives-reject_if P (ltb (length h.packet) (h.ihl + tcp_header_min)) _ λ room.
      Gives-bind P (U16At h.packet h.ihl) (read_u16 h.packet h.ihl) _
        (Gives-read_u16 h.packet h.ihl (ground (arith, room)))
        λ src es.
          Gives-bind P (U16At h.packet (h.ihl + 2)) (read_u16 h.packet (h.ihl + 2)) _
            (Gives-read_u16 h.packet (h.ihl + 2) (ground (arith, room)))
            λ dst ed.
              Gives-bind P (λ b. get_elem? h.packet (h.ihl + 12) ≡ some b)
                (read h.packet (h.ihl + 12)) _
                (Gives-read h.packet (h.ihl + 12) (ground (arith, room)))
                λ offset _.
                  Gives-reject_if P
                    (ltb (offset / 16 * 4) tcp_header_min
                      || ltb (length h.packet) (h.ihl + offset / 16 * 4))
                    _
                    λ fits.
                      Gives-bind P (λ tos. get_elem? h.packet 1 ≡ some tos) (read h.packet 1) _
                        (Gives-read h.packet 1 (ground (arith, room, is.room)))
                        λ tos et.
                          admit_lem policy h (is_forbidden_dst h.dst_ip) (some dst) _
                            (omega (arith, entire), inl tcp_is, ed) (λ b. inl b)
                            λ after ok permitted. (
                              refl,
                              entire,
                              tcp_is,
                              et,
                              ground (arith, room),
                              refl,
                              refl,
                              es,
                              ed,
                              record {
                                address = ok;
                                udp_port = inl (omega arith);
                                permitted = rw (sym tcp_is) permitted;
                              },
                            )
  where
    P : DestPolicy × ParsedPacket → Type 0
    P = Judges policy h

first_port_lem : (h : IpHeader) → IsHeader h → Gives (PortOf h) (first_port h)
unfolding first_port
first_port_lem h is =
    Gives-if (PortOf h) (eqb (fragment_offset h) 0 && (eqb h.protocol 6 || eqb h.protocol 17)) _ _
      (λ e. Gives-reject_if (PortOf h) (ltb (length h.packet) (h.ihl + 4)) _ λ room.
        Gives-bind (PortOf h) (U16At h.packet (h.ihl + 2)) (read_u16 h.packet (h.ihl + 2)) _
          (Gives-read_u16 h.packet (h.ihl + 2) (ground (arith, room)))
          λ port at. (ground (arith, e), shown (ground (arith, e)), at))
      λ e. ground (arith, e)
  where
    shown : (eqb h.protocol 6 || eqb h.protocol 17) ≡ true → (h.protocol ≡ 6) ⊎ (h.protocol ≡ 17)
    shown e = elim (eq_or_ne h.protocol 6) [
      | inl is_tcp ↦ inl is_tcp
      | inr ne ↦ inr (ground (arith, e, ne))
    ]

parse_fragment_lem :
    (policy : DestPolicy) (h : IpHeader)
    → IsHeader h
    → IsFragment h
    → Gives (Judges policy h) (parse_fragment policy h)
unfolding parse_fragment
parse_fragment_lem policy h is piece =
    Gives-bind P (PortOf h) (first_port h) _ (first_port_lem h is) λ port at.
      admit_lem policy h
        (is_forbidden_dst h.dst_ip || (eqb h.protocol 17 && is_some_and port is_forbidden_dst_port))
        port _ at
        (λ b. elim (true_or (is_forbidden_dst h.dst_ip) _ b) [
          | inl e ↦ inl e
          | inr e ↦ inr (ground (arith, e), ground (arith, e))
        ])
        λ after ok permitted. (
          refl,
          piece,
          refl,
          refl,
          (
            port,
            at,
            record {
              address = (false_or _ _ ok).0;
              udp_port = elim (eq_or_ne h.protocol 17) [
                | inl e ↦ inr (ground (arith, ok))
                | inr ne ↦ inl ne
              ];
              permitted = permitted;
            },
          ),
        )
  where
    P : DestPolicy × ParsedPacket → Type 0
    P = Judges policy h

-- A verdict on the packet: its header can be read, and the verdict is on that header.
abbrev pub IsVerdict : DestPolicy → Bytes → DestPolicy × ParsedPacket → Type 0
IsVerdict policy packet result = (h : IpHeader) × IsHeaderOf packet h × Judges policy h result

is_whole : (h : IpHeader) → more_fragments h || not (eqb (fragment_offset h) 0) ≡ false → IsWhole h
is_whole h e = ground (arith, e)

is_fragment :
    (h : IpHeader) → more_fragments h || not (eqb (fragment_offset h) 0) ≡ true → IsFragment h
is_fragment h e = ground (arith, e)

pub parse_lem :
    (policy : DestPolicy) (packet : Bytes)
    → Gives (IsVerdict policy packet) (parse_ip_packet_full policy packet)
unfolding parse_ip_packet_full
parse_lem policy packet =
    Gives-bind P (IsHeaderOf packet) (read_header packet) _ (read_header_lem packet) λ h is.
      Gives-if P (more_fragments h || not (eqb (fragment_offset h) 0)) _ _
        (λ piece.
          Gives-weaken P (Judges policy h) (parse_fragment policy h)
            (parse_fragment_lem policy h is.header (is_fragment h piece)) λ r j. (h, is, j))
        λ entire.
          Gives-if P (eqb h.protocol 17) _ _
            (λ e.
              Gives-weaken P (Judges policy h) (parse_udp policy h)
                (parse_udp_lem policy h is.header (is_whole h entire) (ground (arith, e)))
                λ r j. (h, is, j))
            λ _.
              Gives-if P (eqb h.protocol 6) _ _
                (λ e.
                  Gives-weaken P (Judges policy h) (parse_tcp policy h)
                    (parse_tcp_lem policy h is.header (is_whole h entire) (ground (arith, e)))
                    λ r j. (h, is, j))
                λ _. tt
  where
    P : DestPolicy × ParsedPacket → Type 0
    P = IsVerdict policy packet

-- No packet makes the parser read outside its buffer: it never panics.
pub parse-ne-panicked :
    (policy : DestPolicy) (packet : Bytes) → parse_ip_packet_full policy packet ≢ panicked
parse-ne-panicked policy packet =
    Gives-ne-panicked (IsVerdict policy packet) _ (parse_lem policy packet)

-- What the parser returns for a packet is a verdict on the packet's own IP header: its version is 4, and
-- what is passed on is the packet up to its total length. UDP and TCP are passed on only where no
-- fragment bit and no offset is set and the protocol is the one, with the type of service, addresses
-- and ports that stand in the packet, UDP with the payload that its length tells; a fragment only
-- where one of these is set, with its protocol and source. The destination, with the port that the
-- packet shows, is not blocked and the policy permits it. Where the verdict is that it is
-- forbidden, the destination or its port is blocked and the policy is not asked, or the policy refuses it. A later fragment shows no
-- port.
pub parse-IsVerdict :
    (policy : DestPolicy) (packet : Bytes) (result : DestPolicy × ParsedPacket)
    → parse_ip_packet_full policy packet ≡ got result
    → IsVerdict policy packet result
parse-IsVerdict policy packet result e =
    Gives-result (IsVerdict policy packet) _ result (parse_lem policy packet) e
