-- ===== src/DestPolicy/Permits.antt =====
-- src/dest_policy.rs, `DestPolicy::permits` and its counters and tally. The calls are atomic: the
-- counters are atomics, and the tally has a lock that nothing panics under.
pub mod Verdict
pub mod Tallies
use Prim.Native.Nat.{bit_and}
use swifttunnel_relay.Prelude.{
  ℕ, ◌+◌, ◌%◌, ◌^◌, Bool, true, false, not, Option, none, some, List, if◌then◌else◌, ltb, eqb, ◌==◌,
  nat_eq, Keyed, contains, length, is_some_and, Assoc, lookup, insert, ◌&&◌, ◌≡◌, ◌↔◌, arith,
}
use swifttunnel_relay.Addr.{Ipv4Addr, to_u32}
use swifttunnel_relay.DestPolicy.Nets.{Net, net_set_contains}

pub data Mode : Type 0 where
  off observe enforce : Mode

-- `fetch_add(1)` on an `AtomicU64`
abbrev pub fetch_inc : ℕ → ℕ
fetch_inc n = (n + 1) % 2 ^ 64

pub record Counters : Type 0 where
  pub udp_unlisted : ℕ
  pub tcp_unlisted_network : ℕ
  pub tcp_unlisted_port : ℕ
  pub dropped : ℕ

-- A network's key is (protocol, first address of the /24).
abbrev pub NetKey : Type 0
NetKey = ℕ × ℕ

abbrev key_beq : NetKey → NetKey → Bool
key_beq a b = eqb a.0 b.0 && eqb a.1 b.1

pub key_beq_iff : (a b : NetKey) → (key_beq a b ≡ true) ↔ (a ≡ b)
key_beq_iff a b = ground arith

instance abbrev pub key_eq : Keyed NetKey
key_eq = record { matches = key_beq; matches_iff = key_beq_iff }

pub record Tally : Type 0 where
  pub networks : Assoc NetKey ℕ
  pub tcp_ports : Assoc ℕ ℕ
  pub overflow : ℕ

pub data Unlisted : Type 0 where
  network port : Unlisted

pub record DestPolicy : Type 0 where
  pub mode : Mode
  pub udp : List Net
  pub tcp : List Net
  pub tcp_ports : List ℕ
  pub sample_every : ℕ
  pub counters : Counters
  pub tick : ℕ
  pub tally : Tally

abbrev pub sample_cap : ℕ
sample_cap = 256

module _ {K : Type 0} ⦃e : Keyed K⦄ where
  -- `bump`: the map and the overflow counter
  unfoldable pub bump : Assoc K ℕ → K → ℕ → Assoc K ℕ × ℕ
  bump m key overflow = elim (lookup key m) [
    | some count ↦ (insert key (count + 1) m, overflow)
    | none ↦ if ltb (length m) sample_cap then (insert key 1 m, overflow) else (m, overflow + 1)
  ]

-- the match on `unlisted`, under the lock
unfoldable pub tally_sample : Tally → ℕ → Ipv4Addr → Option ℕ → Unlisted → Tally
tally_sample t protocol dst dst_port network =
    let (networks, overflow) =
      bump t.networks (protocol, bit_and (to_u32 dst) 0xffff_ff00) t.overflow in
    record t { networks = networks; overflow = overflow }
tally_sample t protocol dst none port = t
tally_sample t protocol dst (some p) port =
    let (tcp_ports, overflow) = bump t.tcp_ports p t.overflow in
    record t { tcp_ports = tcp_ports; overflow = overflow }

-- `DestPolicy::tally`
unfoldable pub tally : DestPolicy → ℕ → Ipv4Addr → Option ℕ → Unlisted → DestPolicy
tally p protocol dst dst_port unlisted =
    let ticked = record p { tick = fetch_inc p.tick } in
    if not (eqb (p.tick % p.sample_every) 0)
    then ticked
    else record ticked { tally = tally_sample p.tally protocol dst dst_port unlisted }

-- the list that judges a packet, and why it refuses it
unfoldable pub unlisted_for : DestPolicy → ℕ → Ipv4Addr → Option ℕ → Option Unlisted
unlisted_for p protocol dst dst_port =
    if eqb protocol 6
    then (if not (net_set_contains p.tcp dst)
        then some network
        else if is_some_and dst_port (λ q. not (contains p.tcp_ports q))
        then some port
        else none)
    else if net_set_contains p.udp dst
    then none
    else some network

unfoldable pub count_unlisted : Counters → ℕ → Unlisted → Counters
count_unlisted c protocol network =
    if eqb protocol 6
    then record c { tcp_unlisted_network = fetch_inc c.tcp_unlisted_network }
    else record c { udp_unlisted = fetch_inc c.udp_unlisted }
count_unlisted c protocol port = record c { tcp_unlisted_port = fetch_inc c.tcp_unlisted_port }

abbrev pub is_off : Mode → Bool
is_off off = true
is_off _ = false

abbrev pub is_enforce : Mode → Bool
is_enforce enforce = true
is_enforce _ = false

-- what `permits` does with a packet that is not listed
unfoldable pub refuse : DestPolicy → ℕ → Ipv4Addr → Option ℕ → Unlisted → DestPolicy × Bool
refuse p protocol dst dst_port unlisted =
    let counted = record p { counters = count_unlisted p.counters protocol unlisted } in
    let p' = tally counted protocol dst dst_port unlisted in
    if is_enforce p.mode
    then (
      record p' { counters = record (p'.counters) { dropped = fetch_inc p'.counters.dropped } },
      false,
    )
    else (p', true)

unfoldable pub permits : DestPolicy → ℕ → Ipv4Addr → Option ℕ → DestPolicy × Bool
permits p protocol dst dst_port =
    if is_off p.mode then (p, true) else elim (unlisted_for p protocol dst dst_port) [
      | none ↦ (p, true)
      | some unlisted ↦ refuse p protocol dst dst_port unlisted
    ]
