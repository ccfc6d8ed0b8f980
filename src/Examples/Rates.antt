-- ===== src/Examples/Rates.antt =====
-- Concrete floods (src/main.rs, rate limits).
use swifttunnel_relay.Prelude.{
  inl, ℕ, ◌+◌, ◌*◌, ◌≡◌, ◌≢◌, ◌≤◌, ◌⊎◌, refl, arith, List, [], ◌∷◌, some, min, lookup, length,
  get_elem?,
}
use swifttunnel_relay.Addr.{IpAddr, ip_eq, ip_beq, v4, ipv4, ipv4_beq}
use swifttunnel_relay.RateLimit.Window.{
  SourceRateState, SourceLimitKind, packet, new_session, used, limit,
}
use swifttunnel_relay.RateLimit.Window
use swifttunnel_relay.RateLimit.Window.Bounds.{
  Event, admitted, offered, admitted_open, admitted_burst,
}
use swifttunnel_relay.RateLimit.Limiter.{SourceRateLimiter}
use swifttunnel_relay.RateLimit.Limiter
use swifttunnel_relay.RateLimit.Limiter.Isolation.{allow-IsValid, allow_known, allow_isolated}
use swifttunnel_relay.RateLimit.Limiter.Isolation
use swifttunnel_relay.RateLimit.Pending
use swifttunnel_relay.RateLimit.Pending.{allow_bounded}

-- One session is left in this window.
abbrev state : SourceRateState
state = record { window_start = 5_000_000_000; packets = 10; new_sessions = 255; new_flows = 0 }

abbrev events : List Event
events = (new_session, 5_100_000_000) ∷ (packet, 5_200_000_000) ∷ (new_session, 5_150_000_000) ∷ []

state-IsValid : Window.IsValid state
state-IsValid = record {
  packets_fit = omega arith;
  sessions_fit = omega arith;
  flows_fit = omega arith;
}

admitted_open_example :
    used new_session state + admitted new_session state events
    ≡ min (used new_session state + offered new_session events) (limit new_session)
admitted_open_example =
    admitted_open new_session state 5_000_000_000 events state-IsValid (omega arith)
      ((omega arith, omega arith), ((omega arith, omega arith), ((omega arith, omega arith), tt)))

admitted_burst_example :
    used new_session state + admitted new_session state events ≤ 2 * limit new_session
admitted_burst_example =
    admitted_burst new_session state 5_100_000_000 events state-IsValid
      ((omega arith, omega arith), ((omega arith, omega arith), ((omega arith, omega arith), tt)))

abbrev one : IpAddr
one = v4 (ipv4 203 0 113 9)

abbrev two : IpAddr
two = v4 (ipv4 198 51 100 2)

abbrev limiter : SourceRateLimiter
limiter = record { sources = (one, state) ∷ []; created_at = 0; last_prune_ms = 0 }

limiter-IsValid : Isolation.IsValid limiter
unfolding lookup
limiter-IsValid = record { distinct = (refl, tt); bounded = omega arith }

known : lookup one limiter.sources ≡ some state
unfolding lookup ip_beq ipv4_beq
known = refl

two-ne-one : two ≢ one
two-ne-one e = ground arith

allow-IsValid_example : Isolation.IsValid (Limiter.allow limiter two new_session 40_000_000_000).0
allow-IsValid_example = allow-IsValid limiter two new_session 40_000_000_000 limiter-IsValid

allow_known_example :
    ((Limiter.allow limiter one new_session 5_100_000_000).1
      ≡ (Window.allow state new_session 5_100_000_000).1)
    × (lookup one (Limiter.allow limiter one new_session 5_100_000_000).0.sources
        ≡ some (Window.allow state new_session 5_100_000_000).0)
allow_known_example = allow_known limiter one new_session 5_100_000_000 state limiter-IsValid known

one-HasPlace : Isolation.HasPlace limiter one 5_100_000_000
one-HasPlace = inl (state, known, refl)

allow_isolated_example :
    (Limiter.allow
      (Limiter.allow limiter two packet 5_100_000_000).0
      one
      new_session
      5_200_000_000).1
    ≡ (Limiter.allow limiter one new_session 5_200_000_000).1
allow_isolated_example =
    allow_isolated limiter two one packet new_session 5_100_000_000 5_200_000_000 limiter-IsValid
      two-ne-one (omega arith) one-HasPlace

-- A hash that looks at the last octet.
abbrev hash_one : IpAddr → ℕ
hash_one (v4 ip) = ip.o3
hash_one _ = 0

abbrev buckets : List SourceRateState
buckets = state ∷ state ∷ []

allow_bounded_example :
    (bucket : SourceRateState) × (get_elem? buckets (Pending.index hash_one buckets one)
      ≡ some bucket)
    × (buckets' : List SourceRateState) × (Pending.allow hash_one buckets one 5_100_000_000
        ≡ some (buckets', (Window.allow bucket new_session 5_100_000_000).1))
    × (length buckets' ≡ length buckets)
    × (get_elem? buckets' (Pending.index hash_one buckets one)
        ≡ some (Window.allow bucket new_session 5_100_000_000).0)
    × ((i : ℕ)
        → (Pending.index hash_one buckets one ≡ i) ⊎ (get_elem? buckets' i ≡ get_elem? buckets i))
allow_bounded_example = allow_bounded hash_one buckets one 5_100_000_000 (omega arith)
