-- ===== src/Datapath/Cleanup.antt =====
-- src/datapath_v2.rs, the session cleanup task: one tick of it. The release of a session's TUN address
-- is not part of it here.
pub mod Survivors
use swifttunnel_relay.Prelude.{
  ℕ, suc, ◌+◌, ◌-◌, ◌%◌, Bool, not, ◌||◌, List, [], ◌∷◌, none, some, if◌then◌else◌, leb,
  is_some_and, length, get_elem?, set, Bytes, bytes_eq, Assoc, remove, retain, u64_max,
  saturating_add,
}
use swifttunnel_relay.Auth.Replay.{auth_clock_skew_secs}
use swifttunnel_relay.Sessions.{SessionEntry, Sessions}
use swifttunnel_relay.Sessions.Counts.{decrement_source_session_count}
use swifttunnel_relay.Datapath.Relay.{
  Relay, Channel, ShardMsg, remove_session, try_send, shard_for_session,
}

-- SESSION_TIMEOUT and FLOW_GRACE_PERIOD, in seconds, and a second of the monotonic clock
abbrev pub session_timeout : ℕ
session_timeout = 180

abbrev pub flow_grace_period : ℕ
flow_grace_period = 30

abbrev pub second : ℕ
second = 1_000_000_000

abbrev pub session_idle_limit : ℕ
session_idle_limit = 210_000_000_000

abbrev pub lease_grace_secs : ℕ
lease_grace_secs = flow_grace_period + auth_clock_skew_secs

-- `fetch_sub(1)` on an `AtomicU64`
abbrev pub fetch_dec : ℕ → ℕ
fetch_dec n = (n + u64_max) % suc u64_max

unfoldable pub lease_long_over : ℕ → SessionEntry → Bool
lease_long_over now_unix session =
    is_some_and session.lease_expires_at_unix
      (λ expires_at. leb (saturating_add expires_at lease_grace_secs) now_unix)

unfoldable pub is_over : ℕ → ℕ → SessionEntry → Bool
is_over now now_unix session =
    lease_long_over now_unix session || leb session_idle_limit (now - session.last_activity)

-- `RemoveSession` for the session's shard; a message that finds no room is lost
unfoldable pub send_remove : Bytes → List (Channel ShardMsg) → List (Channel ShardMsg)
send_remove session_id shards =
    let shard_id = shard_for_session session_id (length shards) in
    elim (get_elem? shards shard_id) [
      | none ↦ shards
      | some channel ↦ elim (try_send channel (remove_session session_id)) [
        | none ↦ shards
        | some channel' ↦ set shards shard_id channel'
      ]
    ]

-- what is done about a session that is over
unfoldable pub forget : Bytes → SessionEntry → Relay → Relay
forget session_id session r = record r {
  traffic = remove session_id r.traffic;
  counts = decrement_source_session_count r.counts session.client_addr.ip;
  stats = record r.stats { active_sessions = fetch_dec r.stats.active_sessions };
  shards = send_remove session_id r.shards;
}

-- the visits of `retain`
unfoldable pub sweep : ℕ → ℕ → Sessions → Relay → Relay
sweep now now_unix [] r = r
sweep now now_unix ((session_id, session) ∷ rest) r =
    sweep now now_unix rest
      (if is_over now now_unix session then forget session_id session r else r)

unfoldable pub cleanup : ℕ → ℕ → Relay → Relay
cleanup now now_unix r = record (sweep now now_unix r.sessions r) {
  sessions = retain (λ _ session. not (is_over now now_unix session)) r.sessions;
}
