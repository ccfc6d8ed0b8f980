-- ===== src/DestPolicy/Permits/Verdict.antt =====
-- Which packets the policy lets through (src/dest_policy.rs, `DestPolicy::permits`).
use swifttunnel_relay.Prelude.{
  ℕ, ◌≡◌, ◌≢◌, ◌↔◌, ◌⊎◌, ap, ◌∙◌, eq_or_ne, ◌<◌, inl, inr, refl, true, Option, none, some, List,
  arith, All, contains, nat_eq, u32_mod,
}
use swifttunnel_relay.Addr.{Ipv4Addr, to_u32}
use swifttunnel_relay.DestPolicy.Nets.{Net, net_set_new, net_set_contains}
use swifttunnel_relay.DestPolicy.Nets.Sets.{IsNet, any_contains, net_set_lem}
use swifttunnel_relay.DestPolicy.Permits.{DestPolicy, enforce, unlisted_for, refuse, permits}

-- Outside enforce mode every packet passes, listed or not.
pub permits-observing :
    (p : DestPolicy) (protocol : ℕ) (dst : Ipv4Addr) (dst_port : Option ℕ)
    → p.mode ≢ enforce
    → (permits p protocol dst dst_port).1 ≡ true
unfolding permits refuse
permits-observing p protocol dst dst_port h = ground arith

-- The policy's lists were made from these prefixes.
pub record Loads (p : DestPolicy) (udp tcp : List Net) : Type 0 where
  pub udp_set : p.udp ≡ net_set_new udp
  pub tcp_set : p.tcp ≡ net_set_new tcp
  pub udp_nets : All IsNet udp
  pub tcp_nets : All IsNet tcp

-- A destination that the lists name: for TCP a network and one of the ports, where the packet has a
-- port; for every other protocol a network.
abbrev pub Listed : DestPolicy → List Net → List Net → ℕ → Ipv4Addr → Option ℕ → Type 0
Listed p udp tcp protocol dst dst_port =
    ((protocol ≡ 6)
      × (any_contains tcp (to_u32 dst) ≡ true)
      × ((dst_port ≡ none) ⊎ ((q : ℕ) × (dst_port ≡ some q) × (contains p.tcp_ports q ≡ true))))
    ⊎ ((protocol ≢ 6) × (any_contains udp (to_u32 dst) ≡ true))

permits-verdict :
    (p : DestPolicy) (protocol : ℕ) (dst : Ipv4Addr) (dst_port : Option ℕ)
    → p.mode ≡ enforce
    → ((permits p protocol dst dst_port).1 ≡ true) ↔ (unlisted_for p protocol dst dst_port ≡ none)
unfolding permits refuse
permits-verdict p protocol dst dst_port h = (λ e. ground (arith, e), λ e. ground (arith, e))

set_lem :
    (set nets : List Net) (dst : Ipv4Addr)
    → set ≡ net_set_new nets
    → All IsNet nets
    → to_u32 dst < u32_mod
    → net_set_contains set dst ≡ any_contains nets (to_u32 dst)
set_lem set nets dst e v fits = ap (λ s. net_set_contains s dst) e ∙ net_set_lem nets dst v fits

pub unlisted_for-none :
    (p : DestPolicy) (udp tcp : List Net) (protocol : ℕ) (dst : Ipv4Addr) (dst_port : Option ℕ)
    → Loads p udp tcp
    → to_u32 dst < u32_mod
    → (unlisted_for p protocol dst dst_port ≡ none) ↔ Listed p udp tcp protocol dst dst_port
unfolding unlisted_for
unlisted_for-none p udp tcp protocol dst none l fits =
    let eu = set_lem p.udp udp dst l.udp_set l.udp_nets fits in
    let et = set_lem p.tcp tcp dst l.tcp_set l.tcp_nets fits in
    (
      λ e. elim (eq_or_ne protocol 6) [
        | inl is ↦ inl (is, ground (arith, e, et), inl refl)
        | inr ne ↦ inr (ne, ground (arith, e, eu))
      ],
      λ e. ground (arith, e, eu, et),
    )
unlisted_for-none p udp tcp protocol dst (some q) l fits =
    let eu = set_lem p.udp udp dst l.udp_set l.udp_nets fits in
    let et = set_lem p.tcp tcp dst l.tcp_set l.tcp_nets fits in
    (
      λ e. elim (eq_or_ne protocol 6) [
        | inl is ↦ inl (is, ground (arith, e, et), inr (q, refl, ground (arith, e, et)))
        | inr ne ↦ inr (ne, ground (arith, e, eu))
      ],
      λ e. ground (arith, e, eu, et),
    )

-- In enforce mode a packet passes exactly when the policy's lists name its destination: for TCP one of
-- the TCP prefixes that the policy was loaded with contains the address and, where the packet has a
-- port, the port is one of the allowed ones; for any other protocol one of the UDP prefixes contains
-- the address.
pub permits-enforcing :
    (p : DestPolicy) (udp tcp : List Net) (protocol : ℕ) (dst : Ipv4Addr) (dst_port : Option ℕ)
    → Loads p udp tcp
    → p.mode ≡ enforce
    → to_u32 dst < u32_mod
    → ((permits p protocol dst dst_port).1 ≡ true) ↔ Listed p udp tcp protocol dst dst_port
permits-enforcing p udp tcp protocol dst dst_port l h fits =
    let v = permits-verdict p protocol dst dst_port h in
    let u = unlisted_for-none p udp tcp protocol dst dst_port l fits in
    (λ e. u.0 (v.0 e), λ e. v.1 (u.1 e))
