-- ===== src/RateLimit/Limiter.antt =====
-- src/main.rs, `SourceRateLimiter`: one window for each source address, pruned when idle. A call is
-- atomic, so that the `compare_exchange` of `prune_idle` succeeds.
pub mod Isolation
use swifttunnel_relay.Prelude.{
  ℕ, ◌+◌, ◌-◌, ◌/◌, Bool, false, ◌&&◌, not, Option, if◌then◌else◌, leb, ltb, unwrap_or, Assoc,
  lookup, insert, retain, contains_key, length, min, u64_max,
}
use swifttunnel_relay.Addr.{IpAddr, ip_eq}
use swifttunnel_relay.RateLimit.Window.{SourceRateState, SourceLimitKind}
use swifttunnel_relay.RateLimit.Window

-- SOURCE_RATE_PRUNE_INTERVAL and SOURCE_RATE_IDLE_TTL, in nanoseconds
abbrev pub source_rate_prune_interval : ℕ
source_rate_prune_interval = 30_000_000_000

abbrev pub source_rate_idle_ttl : ℕ
source_rate_idle_ttl = 120_000_000_000

abbrev pub max_sessions_total : ℕ
max_sessions_total = 65_536

pub record SourceRateLimiter : Type 0 where
  pub sources : Assoc IpAddr SourceRateState
  pub created_at : ℕ
  pub last_prune_ms : ℕ

abbrev pub duration_millis_u64 : ℕ → ℕ
duration_millis_u64 duration = min (duration / 1_000_000) u64_max

-- the test of `retain`
abbrev pub is_live : ℕ → SourceRateState → Bool
is_live now state = ltb (now - state.window_start) source_rate_idle_ttl

unfoldable pub prune_idle : SourceRateLimiter → ℕ → SourceRateLimiter
prune_idle l now =
    let now_ms = duration_millis_u64 (now - l.created_at) in
    if ltb (now_ms - l.last_prune_ms) (duration_millis_u64 source_rate_prune_interval)
    then l
    else record l {
      sources = retain (λ _ state. is_live now state) l.sources;
      last_prune_ms = now_ms;
    }

-- `entry(ip).or_insert_with(|| SourceRateState::new(now)).allow(kind, now)`
unfoldable pub count_event :
    SourceRateLimiter → IpAddr → SourceLimitKind → ℕ → SourceRateLimiter × Bool
count_event l ip kind now =
    let (state, ok) = Window.allow (unwrap_or (lookup ip l.sources) (Window.new now)) kind now in
    (record l { sources = insert ip state l.sources }, ok)

unfoldable pub allow : SourceRateLimiter → IpAddr → SourceLimitKind → ℕ → SourceRateLimiter × Bool
allow l ip kind now =
    let l' = prune_idle l now in
    if not (contains_key ip l'.sources) && leb max_sessions_total (length l'.sources)
    then (l', false)
    else count_event l' ip kind now
