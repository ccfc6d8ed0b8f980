-- ===== src/RateLimit/Window.antt =====
-- src/main.rs, `SourceRateState`: the counters of one source in the current one-second window.
pub mod Bounds
use swifttunnel_relay.Prelude.{ℕ, ◌+◌, ◌-◌, ◌≤◌, Bool, true, false, if◌then◌else◌, leb}

-- SOURCE_RATE_WINDOW, in nanoseconds
abbrev pub source_rate_window : ℕ
source_rate_window = 1_000_000_000

abbrev pub max_packets_per_source_window : ℕ
max_packets_per_source_window = 50_000

abbrev pub max_new_sessions_per_source_window : ℕ
max_new_sessions_per_source_window = 256

abbrev pub max_new_flows_per_source_window : ℕ
max_new_flows_per_source_window = 4096

pub data SourceLimitKind : Type 0 where
  packet new_session new_flow : SourceLimitKind

pub record SourceRateState : Type 0 where
  pub window_start : ℕ
  pub packets : ℕ
  pub new_sessions : ℕ
  pub new_flows : ℕ

unfoldable pub new : ℕ → SourceRateState
new now = record { window_start = now; packets = 0; new_sessions = 0; new_flows = 0 }

-- the match on `kind`: count the event, or refuse it at the limit
take_slot : SourceRateState → SourceLimitKind → SourceRateState × Bool
take_slot s packet =
    if leb max_packets_per_source_window s.packets
    then (s, false)
    else (record s { packets = s.packets + 1 }, true)
take_slot s new_session =
    if leb max_new_sessions_per_source_window s.new_sessions
    then (s, false)
    else (record s { new_sessions = s.new_sessions + 1 }, true)
take_slot s new_flow =
    if leb max_new_flows_per_source_window s.new_flows
    then (s, false)
    else (record s { new_flows = s.new_flows + 1 }, true)

unfoldable pub allow : SourceRateState → SourceLimitKind → ℕ → SourceRateState × Bool
unfolding new take_slot
allow s kind now =
    take_slot (if leb source_rate_window (now - s.window_start) then new now else s) kind

-- The counter of a kind of event, and its limit.
abbrev pub used : SourceLimitKind → SourceRateState → ℕ
used packet s = s.packets
used new_session s = s.new_sessions
used new_flow s = s.new_flows

abbrev pub limit : SourceLimitKind → ℕ
limit packet = max_packets_per_source_window
limit new_session = max_new_sessions_per_source_window
limit new_flow = max_new_flows_per_source_window

pub record IsValid (s : SourceRateState) : Type 0 where
  pub packets_fit : s.packets ≤ max_packets_per_source_window
  pub sessions_fit : s.new_sessions ≤ max_new_sessions_per_source_window
  pub flows_fit : s.new_flows ≤ max_new_flows_per_source_window
