-- ===== src/Packet/Destinations.antt =====
-- src/main.rs: the blocked destinations, `is_forbidden_dst` and `is_forbidden_dst_port`. The predicates
-- on addresses are those of `std::net::Ipv4Addr`.
use swifttunnel_relay.Prelude.{ℕ, Bool, ◌&&◌, ◌||◌, List, [], ◌∷◌, leb, eqb, nat_eq, contains}
use swifttunnel_relay.Addr.{Ipv4Addr}

abbrev pub forbidden_dst_ports : List ℕ
forbidden_dst_ports =
    7 ∷ 17 ∷ 19 ∷ 53 ∷ 69 ∷ 111 ∷ 123 ∷ 137 ∷ 161 ∷ 162 ∷ 389 ∷ 520 ∷ 623 ∷ 1434 ∷ 1900 ∷ 3702
    ∷ 5093 ∷ 5351 ∷ 5353 ∷ 10001 ∷ 11211 ∷ 32414 ∷ []

unfoldable pub is_forbidden_dst_port : ℕ → Bool
is_forbidden_dst_port port = eqb port 0 || contains forbidden_dst_ports port

unfoldable pub is_private : Ipv4Addr → Bool
is_private ip =
    eqb ip.o0 10
    || ((eqb ip.o0 172 && (leb 16 ip.o1 && leb ip.o1 31)) || (eqb ip.o0 192 && eqb ip.o1 168))

unfoldable pub is_loopback : Ipv4Addr → Bool
is_loopback ip = eqb ip.o0 127

unfoldable pub is_link_local : Ipv4Addr → Bool
is_link_local ip = eqb ip.o0 169 && eqb ip.o1 254

unfoldable pub is_multicast : Ipv4Addr → Bool
is_multicast ip = leb 224 ip.o0 && leb ip.o0 239

unfoldable pub is_broadcast : Ipv4Addr → Bool
is_broadcast ip = eqb ip.o0 255 && (eqb ip.o1 255 && (eqb ip.o2 255 && eqb ip.o3 255))

unfoldable pub is_unspecified : Ipv4Addr → Bool
is_unspecified ip = eqb ip.o0 0 && (eqb ip.o1 0 && (eqb ip.o2 0 && eqb ip.o3 0))

unfoldable pub is_cgnat_ipv4 : Ipv4Addr → Bool
is_cgnat_ipv4 ip = eqb ip.o0 100 && (leb 64 ip.o1 && leb ip.o1 127)

unfoldable pub is_reserved_ipv4 : Ipv4Addr → Bool
is_reserved_ipv4 ip = leb 240 ip.o0

unfoldable pub is_this_network_ipv4 : Ipv4Addr → Bool
is_this_network_ipv4 ip = eqb ip.o0 0

unfoldable pub is_forbidden_dst : Ipv4Addr → Bool
unfolding is_private is_loopback is_link_local is_multicast is_broadcast is_unspecified
    is_this_network_ipv4 is_reserved_ipv4 is_cgnat_ipv4
is_forbidden_dst ip =
    is_private ip
    || (is_loopback ip
        || (is_link_local ip
            || (is_multicast ip
                || (is_broadcast ip
                    || (is_unspecified ip
                        || (is_this_network_ipv4 ip
                            || (is_reserved_ipv4 ip || is_cgnat_ipv4 ip)))))))
