-- ===== src/DestPolicy/Permits/Tallies.antt =====
-- The tally of unlisted packets and their counters
-- (src/dest_policy.rs, `DestPolicy::tally` and `bump`).
use Prim.Native.Nat.{bit_and}
use swifttunnel_relay.Prelude.{
  ℕ, ◌+◌, ◌/◌, ◌%◌, ◌^◌, ◌≤◌, ◌<◌, ◌≡◌, ◌≢◌, ◌⊎◌, ◌∙◌, sym, refl, ap, inl, inr, true, false, List,
  u32_mod, [], ◌∷◌, Option, none, some, arith, Keyed, nat_eq, Assoc, lookup, insert, length,
  length-insert, Option-cases, is_some,
}
use std.Path.{transport}
use swifttunnel_relay.Addr.{Ipv4Addr, to_u32}
use swifttunnel_relay.DestPolicy.Nets.{Net}
use swifttunnel_relay.DestPolicy.Permits.Verdict.{Loads, Listed, unlisted_for-none}
use swifttunnel_relay.DestPolicy.Permits.{
  DestPolicy, Tally, key_eq, Unlisted, network, port, sample_cap, bump, tally_sample, tally,
  unlisted_for, refuse, permits, count_unlisted, Counters, Mode, off, observe, enforce, is_off,
}

module _ {K : Type 0} ⦃e : Keyed K⦄ where
  -- all the samples of a map
  unfoldable pub total : Assoc K ℕ → ℕ
  total [] = 0
  total ((k, n) ∷ m) = n + total m

  total-insert :
      (k : K) (n : ℕ) (m : Assoc K ℕ)
      → total (insert k n m) + (elim (lookup k m) [ none ↦ 0 | some old ↦ old ]) ≡ total m + n
  unfolding total insert lookup
  total-insert k n [] = omega arith
  total-insert k n ((j, w) ∷ m) = ground (arith, total-insert k n m)

  -- A sample is added to the map or to the overflow, and the map does not outgrow its cap.
  bump_lem :
      (m : Assoc K ℕ) (k : K) (overflow : ℕ)
      → (total (bump m k overflow).0 + (bump m k overflow).1 ≡ total m + overflow + 1)
        × (length m ≤ sample_cap → length (bump m k overflow).0 ≤ sample_cap)
  unfolding bump
  bump_lem m k overflow = elim (Option-cases (lookup k m)) [
    | inl new ↦
        let t = total-insert k 1 m in
        let l = length-insert k 1 m in (ground (arith, new, t), ground (arith, new, l))
    | inr (count, seen) ↦
        let t = total-insert k (count + 1) m in
        let l = length-insert k (count + 1) m in (ground (arith, seen, t), ground (arith, seen, l))
  ]

-- every sample that was taken
unfoldable pub samples : Tally → ℕ
samples t = total t.networks + total t.tcp_ports + t.overflow

abbrev pub IsBounded : Tally → Type 0
IsBounded t = (length t.networks ≤ sample_cap) × (length t.tcp_ports ≤ sample_cap)

-- A port is held against a packet only where it has one.
abbrev Reported : Option ℕ → Unlisted → Type 0
Reported dst_port network = Unit {0}
Reported dst_port port = is_some dst_port ≡ true

tally_sample_lem :
    (t : Tally) (protocol : ℕ) (dst : Ipv4Addr) (dst_port : Option ℕ) (u : Unlisted)
    → Reported dst_port u
    → IsBounded t
    → (samples (tally_sample t protocol dst dst_port u) ≡ samples t + 1)
      × IsBounded (tally_sample t protocol dst dst_port u)
unfolding tally_sample samples
tally_sample_lem t protocol dst dst_port network r b =
    let s = bump_lem t.networks (protocol, bit_and (to_u32 dst) 0xffff_ff00) t.overflow in
    (omega arith, (s.1 b.0, b.1))
tally_sample_lem t protocol dst none port r b = cc
tally_sample_lem t protocol dst (some q) port r b =
    let s = bump_lem t.tcp_ports q t.overflow in (omega arith, (b.0, s.1 b.1))

-- the unlisted packets so far, by the counters
abbrev pub unlisted_count : Counters → ℕ
unlisted_count c = c.udp_unlisted + c.tcp_unlisted_network + c.tcp_unlisted_port

-- The tally holds one in sixteen of the unlisted packets so far, the first among them.
pub record IsTallied (p : DestPolicy) : Type 0 where
  pub every : p.sample_every ≡ 16
  pub counted : unlisted_count p.counters ≡ p.tick
  pub bounded : IsBounded p.tally
  pub sampled : samples p.tally ≡ (p.tick + 15) / 16

-- one more unlisted packet, before it is offered to the tally
pub record IsCounted (p : DestPolicy) : Type 0 where
  pub every : p.sample_every ≡ 16
  pub counted : unlisted_count p.counters ≡ p.tick + 1
  pub bounded : IsBounded p.tally
  pub sampled : samples p.tally ≡ (p.tick + 15) / 16

count_unlisted_lem :
    (c : Counters) (protocol : ℕ) (u : Unlisted)
    → unlisted_count c + 1 < 2 ^ 64
    → unlisted_count (count_unlisted c protocol u) ≡ unlisted_count c + 1
unfolding count_unlisted
count_unlisted_lem c protocol network fits = ground arith
count_unlisted_lem c protocol port fits = ground arith

tally-IsTallied :
    (p : DestPolicy) (protocol : ℕ) (dst : Ipv4Addr) (dst_port : Option ℕ) (u : Unlisted)
    → Reported dst_port u
    → p.tick + 1 < 2 ^ 64
    → IsCounted p
    → IsTallied (tally p protocol dst dst_port u)
      × ((tally p protocol dst dst_port u).tick ≡ p.tick + 1)
unfolding tally
tally-IsTallied p protocol dst dst_port u r fits v =
    let s = tally_sample_lem p.tally protocol dst dst_port u r v.bounded in
    let every = v.every in
    let counted = v.counted in
    let sampled = v.sampled in
    let bounded = v.bounded in ground (arith, s, ap (λ (n : ℕ). p.tick % n) every)

unlisted_for-Reported :
    (p : DestPolicy) (protocol : ℕ) (dst : Ipv4Addr) (dst_port : Option ℕ) (u : Unlisted)
    → unlisted_for p protocol dst dst_port ≡ some u
    → Reported dst_port u
unfolding unlisted_for
unlisted_for-Reported p protocol dst dst_port network h = tt
unlisted_for-Reported p protocol dst dst_port port h = ground (arith, h)

refuse-IsTallied :
    (p : DestPolicy) (protocol : ℕ) (dst : Ipv4Addr) (dst_port : Option ℕ) (u : Unlisted)
    → Reported dst_port u
    → p.tick + 1 < 2 ^ 64
    → IsTallied p
    → IsTallied (refuse p protocol dst dst_port u).0
      × ((refuse p protocol dst dst_port u).0.tick ≡ p.tick + 1)
unfolding refuse
refuse-IsTallied p protocol dst dst_port u r fits v =
    let w =
      tally-IsTallied (record p { counters = count_unlisted p.counters protocol u }) protocol dst
        dst_port u r fits
        (record {
          every = v.every;
          counted = omega (
            arith,
            v.counted,
            count_unlisted_lem p.counters protocol u (omega (arith, fits, v.counted)),
          );
          bounded = v.bounded;
          sampled = v.sampled;
        }) in
    let t = w.0 in
    let every = t.every in
    let counted = t.counted in
    let bounded = t.bounded in let sampled = t.sampled in ground (arith, w)

-- The packet is none of the policy's business, or one more that is not listed.
abbrev pub TalliesOf :
    DestPolicy → List Net → List Net → ℕ → Ipv4Addr → Option ℕ → DestPolicy → Type 0
TalliesOf p udp tcp protocol dst dst_port after =
    (((p.mode ≡ off) ⊎ Listed p udp tcp protocol dst dst_port) × (after ≡ p))
    ⊎ ((p.mode ≢ off) × (Listed p udp tcp protocol dst dst_port → ⊥) × (after.tick ≡ p.tick + 1))

off_or_not : (m : Mode) → (m ≡ off) ⊎ ((m ≢ off) × (is_off m ≡ false))
off_or_not off = inl refl
off_or_not observe = inr (λ e. cc, refl)
off_or_not enforce = inr (λ e. cc, refl)

permits-refuse :
    (p : DestPolicy) (protocol : ℕ) (dst : Ipv4Addr) (dst_port : Option ℕ) (u : Unlisted)
    → is_off p.mode ≡ false
    → unlisted_for p protocol dst dst_port ≡ some u
    → permits p protocol dst dst_port ≡ refuse p protocol dst dst_port u
unfolding permits
permits-refuse p protocol dst dst_port u on found = rw (on, found) refl

permits-listed :
    (p : DestPolicy) (protocol : ℕ) (dst : Ipv4Addr) (dst_port : Option ℕ)
    → (is_off p.mode ≡ true) ⊎ (unlisted_for p protocol dst dst_port ≡ none)
    → (permits p protocol dst dst_port).0 ≡ p
unfolding permits
permits-listed p protocol dst dst_port h = ground (arith, h)

-- Whatever destinations clients try, the tally stays within its caps of 256 entries and accounts for
-- every sixteenth unlisted packet, as a network, a port or an overflow, and the three counters add up to
-- the number of unlisted packets. A packet is one of them, and moves that number by one, exactly if the
-- policy is not off and its lists do not name the destination; any other packet changes nothing. This
-- holds until the number reaches 2^64.
pub permits-IsTallied :
    (p : DestPolicy) (udp tcp : List Net) (protocol : ℕ) (dst : Ipv4Addr) (dst_port : Option ℕ)
    → Loads p udp tcp
    → to_u32 dst < u32_mod
    → p.tick + 1 < 2 ^ 64
    → IsTallied p
    → IsTallied (permits p protocol dst dst_port).0
      × TalliesOf p udp tcp protocol dst dst_port (permits p protocol dst dst_port).0
permits-IsTallied p udp tcp protocol dst dst_port l small fits v =
    let listed_iff = unlisted_for-none p udp tcp protocol dst dst_port l small in
    elim (off_or_not p.mode) [
      | inl is_off ↦
          let same = permits-listed p protocol dst dst_port (inl (ground (arith, is_off))) in
          (transport (ap IsTallied (sym same)) v, inl (inl is_off, same))
      | inr (on, not_off) ↦ elim (Option-cases (unlisted_for p protocol dst dst_port)) [
        | inl listed ↦
            let same = permits-listed p protocol dst dst_port (inr listed) in
            (transport (ap IsTallied (sym same)) v, inl (inr (listed_iff.0 listed), same))
        | inr (u, found) ↦
            let w =
              refuse-IsTallied p protocol dst dst_port u
                (unlisted_for-Reported p protocol dst dst_port u found) fits v in
            let e = permits-refuse p protocol dst dst_port u not_off found in
            (
              transport (ap (λ r. IsTallied r.0) (sym e)) w.0,
              inr (
                on,
                λ named. ground (arith, sym found ∙ listed_iff.1 named),
                ap (λ r. r.0.tick) e ∙ w.1,
              ),
            )
      ]
    ]
