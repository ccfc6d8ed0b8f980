-- ===== src/Examples/Policies.antt =====
-- A concrete destination policy (src/dest_policy.rs).
use swifttunnel_relay.Prelude.{◌-◌, ◌/◌, ◌^◌, ◌≡◌, ◌↔◌, refl, arith, true, List, [], ◌∷◌, some, All}
use swifttunnel_relay.Addr.{Ipv4Addr, ipv4, to_u32}
use swifttunnel_relay.DestPolicy.Nets.{Net, net_of, net_contains, net_set_new, net_set_contains}
use swifttunnel_relay.DestPolicy.Nets.Parse.{net_of-contains, net_of-IsPrefix}
use swifttunnel_relay.DestPolicy.Nets.Sets.{IsNet, any_contains, net_set_lem}
use swifttunnel_relay.DestPolicy.Permits.{DestPolicy, Mode, enforce, permits}
use swifttunnel_relay.DestPolicy.Permits.Verdict.{Loads, Listed, permits-enforcing}
use swifttunnel_relay.DestPolicy.Permits.Tallies.{
  IsTallied, TalliesOf, samples, total, permits-IsTallied,
}

abbrev wide : Ipv4Addr
wide = ipv4 128 116 0 0

abbrev narrow : Ipv4Addr
narrow = ipv4 128 116 4 0

abbrev wide_net : Net
wide_net = record { base = 0x80740000; mask = 0xffff0000 }

abbrev narrow_net : Net
narrow_net = record { base = 0x80740400; mask = 0xffffff00 }

wide_parsed : net_of wide 16 ≡ some wide_net
unfolding net_of
wide_parsed = refl

narrow_parsed : net_of narrow 24 ≡ some narrow_net
unfolding net_of
narrow_parsed = refl

net_of-contains_example :
    (net_contains wide_net 0x80740405 ≡ true)
    ↔ (0x80740405 / 2 ^ (32 - 16) ≡ to_u32 wide / 2 ^ (32 - 16))
net_of-contains_example =
    net_of-contains wide 16 wide_net wide_parsed 0x80740405 (omega arith) (omega arith)

abbrev nets : List Net
nets = narrow_net ∷ wide_net ∷ narrow_net ∷ []

nets_are : All IsNet nets
nets_are =
    let n = net_of-IsPrefix narrow 24 narrow_net narrow_parsed (omega arith) in
    (n, (net_of-IsPrefix wide 16 wide_net wide_parsed (omega arith), (n, tt)))

abbrev dst : Ipv4Addr
dst = ipv4 128 116 9 9

net_set_example : net_set_contains (net_set_new nets) dst ≡ any_contains nets (to_u32 dst)
net_set_example = net_set_lem nets dst nets_are (omega arith)

abbrev policy : Mode → DestPolicy
policy mode = record {
  mode = mode;
  udp = net_set_new nets;
  tcp = net_set_new (wide_net ∷ []);
  tcp_ports = 443 ∷ 80 ∷ [];
  sample_every = 16;
  counters = record {
    udp_unlisted = 0;
    tcp_unlisted_network = 0;
    tcp_unlisted_port = 0;
    dropped = 0;
  };
  tick = 0;
  tally = record { networks = []; tcp_ports = []; overflow = 0 };
}

policy-Loads : Loads (policy enforce) nets (wide_net ∷ [])
policy-Loads = record {
  udp_set = refl;
  tcp_set = refl;
  udp_nets = nets_are;
  tcp_nets = (nets_are.1.0, tt);
}

policy-IsTallied : IsTallied (policy enforce)
unfolding samples total
policy-IsTallied = record {
  every = refl;
  counted = refl;
  bounded = (omega arith, omega arith);
  sampled = refl;
}

permits-enforcing_example :
    ((permits (policy enforce) 6 dst (some 443)).1 ≡ true)
    ↔ Listed (policy enforce) nets (wide_net ∷ []) 6 dst (some 443)
permits-enforcing_example =
    permits-enforcing (policy enforce) nets (wide_net ∷ []) 6 dst (some 443) policy-Loads refl
      (omega arith)

permits-IsTallied_example :
    IsTallied (permits (policy enforce) 17 (ipv4 8 8 8 8) (some 5000)).0
    × TalliesOf
        (policy enforce)
        nets
        (wide_net ∷ [])
        17
        (ipv4 8 8 8 8)
        (some 5000)
        (permits (policy enforce) 17 (ipv4 8 8 8 8) (some 5000)).0
permits-IsTallied_example =
    permits-IsTallied (policy enforce) nets (wide_net ∷ []) 17 (ipv4 8 8 8 8) (some 5000)
      policy-Loads (omega arith) (omega arith) policy-IsTallied
