-- ===== src/Datapath/Stats/Drops.antt =====
-- Dropped packets and their reasons (src/main.rs, `Stats::drop_in` and `drop_out`).
use swifttunnel_relay.Prelude.{ℕ, suc, ◌+◌, ◌%◌, ◌≡◌, arith, u64_max}
use swifttunnel_relay.Datapath.Stats.{
  DropReason, auth, rate_limit, capacity, too_small, parse, fragment, forbidden_dst, tcp_disabled,
  pool, stale_queue, shard_queue, tx_queue, tun_queue, flow_queue, flow_create, flow_send,
  socket_send, DropReasonCounters, increment, Stats, drop_in, drop_out,
}

-- All the reasons, added up.
unfoldable pub all_reasons : DropReasonCounters → ℕ
all_reasons c =
    c.auth + c.rate_limit + c.capacity + c.too_small + c.parse + c.fragment + c.forbidden_dst
    + c.tcp_disabled + c.pool + c.stale_queue + c.shard_queue + c.tx_queue + c.tun_queue
    + c.flow_queue + c.flow_create + c.flow_send + c.socket_send

-- The reasons account for the drops, as far as counters of 64 bits tell.
abbrev pub AreTotalled : Stats → Type 0
AreTotalled s =
    all_reasons s.drop_reasons % suc u64_max ≡ (s.dropped_in + s.dropped_out) % suc u64_max

increment_lem :
    (c : DropReasonCounters) (r : DropReason)
    → all_reasons (increment c r) % suc u64_max ≡ (all_reasons c + 1) % suc u64_max
unfolding increment all_reasons
increment_lem c auth = omega arith
increment_lem c rate_limit = omega arith
increment_lem c capacity = omega arith
increment_lem c too_small = omega arith
increment_lem c parse = omega arith
increment_lem c fragment = omega arith
increment_lem c forbidden_dst = omega arith
increment_lem c tcp_disabled = omega arith
increment_lem c pool = omega arith
increment_lem c stale_queue = omega arith
increment_lem c shard_queue = omega arith
increment_lem c tx_queue = omega arith
increment_lem c tun_queue = omega arith
increment_lem c flow_queue = omega arith
increment_lem c flow_create = omega arith
increment_lem c flow_send = omega arith
increment_lem c socket_send = omega arith

pub drop_in-AreTotalled : (s : Stats) (r : DropReason) → AreTotalled s → AreTotalled (drop_in s r)
unfolding drop_in
drop_in-AreTotalled s r h = omega (arith, increment_lem s.drop_reasons r)

pub drop_out-AreTotalled : (s : Stats) (r : DropReason) → AreTotalled s → AreTotalled (drop_out s r)
unfolding drop_out
drop_out-AreTotalled s r h = omega (arith, increment_lem s.drop_reasons r)
