-- ===== src/Datapath/Stats.antt =====
-- src/main.rs, `Stats`, `DropReasonCounters` and `SessionTraffic`: counters of type u64, each an atomic.
pub mod Drops
use swifttunnel_relay.Prelude.{
  ℕ, suc, ◌+◌, ◌%◌, unwrap_or, Bytes, bytes_eq, Assoc, lookup, insert, u64_max,
}

-- `fetch_add(n)` on an `AtomicU64`
abbrev pub fetch_add : ℕ → ℕ → ℕ
fetch_add counter n = (counter + n) % suc u64_max

pub data DropReason : Type 0 where
  auth rate_limit capacity too_small parse fragment forbidden_dst tcp_disabled pool stale_queue
        shard_queue tx_queue tun_queue flow_queue flow_create flow_send socket_send :
      DropReason

pub record DropReasonCounters : Type 0 where
  pub auth : ℕ
  pub rate_limit : ℕ
  pub capacity : ℕ
  pub too_small : ℕ
  pub parse : ℕ
  pub fragment : ℕ
  pub forbidden_dst : ℕ
  pub tcp_disabled : ℕ
  pub pool : ℕ
  pub stale_queue : ℕ
  pub shard_queue : ℕ
  pub tx_queue : ℕ
  pub tun_queue : ℕ
  pub flow_queue : ℕ
  pub flow_create : ℕ
  pub flow_send : ℕ
  pub socket_send : ℕ

unfoldable pub new_counters : DropReasonCounters
new_counters = record {
  auth = 0;
  rate_limit = 0;
  capacity = 0;
  too_small = 0;
  parse = 0;
  fragment = 0;
  forbidden_dst = 0;
  tcp_disabled = 0;
  pool = 0;
  stale_queue = 0;
  shard_queue = 0;
  tx_queue = 0;
  tun_queue = 0;
  flow_queue = 0;
  flow_create = 0;
  flow_send = 0;
  socket_send = 0;
}

unfoldable pub increment : DropReasonCounters → DropReason → DropReasonCounters
increment c auth = record c { auth = fetch_add c.auth 1 }
increment c rate_limit = record c { rate_limit = fetch_add c.rate_limit 1 }
increment c capacity = record c { capacity = fetch_add c.capacity 1 }
increment c too_small = record c { too_small = fetch_add c.too_small 1 }
increment c parse = record c { parse = fetch_add c.parse 1 }
increment c fragment = record c { fragment = fetch_add c.fragment 1 }
increment c forbidden_dst = record c { forbidden_dst = fetch_add c.forbidden_dst 1 }
increment c tcp_disabled = record c { tcp_disabled = fetch_add c.tcp_disabled 1 }
increment c pool = record c { pool = fetch_add c.pool 1 }
increment c stale_queue = record c { stale_queue = fetch_add c.stale_queue 1 }
increment c shard_queue = record c { shard_queue = fetch_add c.shard_queue 1 }
increment c tx_queue = record c { tx_queue = fetch_add c.tx_queue 1 }
increment c tun_queue = record c { tun_queue = fetch_add c.tun_queue 1 }
increment c flow_queue = record c { flow_queue = fetch_add c.flow_queue 1 }
increment c flow_create = record c { flow_create = fetch_add c.flow_create 1 }
increment c flow_send = record c { flow_send = fetch_add c.flow_send 1 }
increment c socket_send = record c { socket_send = fetch_add c.socket_send 1 }

pub record Stats : Type 0 where
  pub packets_in : ℕ
  pub packets_out : ℕ
  pub bytes_in : ℕ
  pub bytes_out : ℕ
  pub active_flows : ℕ
  pub active_sessions : ℕ
  pub dropped_in : ℕ
  pub dropped_out : ℕ
  pub throttled_users : ℕ
  pub tcp_forwarded : ℕ
  pub tun_udp_forwarded : ℕ
  pub pool_exhausted : ℕ
  pub drop_reasons : DropReasonCounters

unfoldable pub new_stats : Stats
new_stats = record {
  packets_in = 0;
  packets_out = 0;
  bytes_in = 0;
  bytes_out = 0;
  active_flows = 0;
  active_sessions = 0;
  dropped_in = 0;
  dropped_out = 0;
  throttled_users = 0;
  tcp_forwarded = 0;
  tun_udp_forwarded = 0;
  pool_exhausted = 0;
  drop_reasons = new_counters;
}

unfoldable pub drop_in : Stats → DropReason → Stats
drop_in s reason = record s {
  dropped_in = fetch_add s.dropped_in 1;
  drop_reasons = increment s.drop_reasons reason;
}

unfoldable pub drop_out : Stats → DropReason → Stats
drop_out s reason = record s {
  dropped_out = fetch_add s.dropped_out 1;
  drop_reasons = increment s.drop_reasons reason;
}

pub record SessionTraffic : Type 0 where
  pub connected_at_unix : ℕ
  pub bytes_in : ℕ
  pub bytes_out : ℕ
  pub packets_in : ℕ
  pub packets_out : ℕ
  pub last_activity_unix : ℕ
  pub last_rtt_us : ℕ

unfoldable pub new_traffic : ℕ → SessionTraffic
new_traffic now_unix = record {
  connected_at_unix = now_unix;
  bytes_in = 0;
  bytes_out = 0;
  packets_in = 0;
  packets_out = 0;
  last_activity_unix = now_unix;
  last_rtt_us = 0;
}

unfoldable pub record_session_ingress :
    Assoc Bytes SessionTraffic → Bytes → ℕ → ℕ → Assoc Bytes SessionTraffic
record_session_ingress traffic session_id now_unix packet_len =
    let old = unwrap_or (lookup session_id traffic) (new_traffic now_unix) in
    insert session_id
      (record old {
        bytes_in = fetch_add old.bytes_in packet_len;
        packets_in = fetch_add old.packets_in 1;
        last_activity_unix = now_unix;
      })
      traffic
