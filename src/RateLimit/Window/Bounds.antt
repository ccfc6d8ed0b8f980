-- ===== src/RateLimit/Window/Bounds.antt =====
-- How many events a source gets through its window (src/main.rs, `SourceRateState::allow`).
use swifttunnel_relay.Prelude.{
  ℕ, ◌+◌, ◌*◌, ◌≤◌, ◌<◌, ◌≡◌, List, [], ◌∷◌, All, Bool, true, false, ◌&&◌, if◌then◌else◌, arith,
  min, inl, inr, le_or_lt,
}
use swifttunnel_relay.RateLimit.Window.{
  SourceRateState, SourceLimitKind, packet, new_session, new_flow, source_rate_window, allow, used,
  limit, IsValid,
}

abbrev pub Event : Type 0
Event = SourceLimitKind × ℕ

abbrev pub same_kind : SourceLimitKind → SourceLimitKind → Bool
same_kind packet packet = true
same_kind new_session new_session = true
same_kind new_flow new_flow = true
same_kind _ _ = false

-- How many events of one kind are allowed along a history of events at their times.
pub admitted : SourceLimitKind → SourceRateState → List Event → ℕ
admitted k s [] = 0
admitted k s ((kind, now) ∷ es) =
    let (s', ok) = allow s kind now in (if ok && same_kind kind k then 1 else 0) + admitted k s' es

abbrev pub IsWithin : ℕ → List Event → Type 0
IsWithin t es = All (λ (e : Event). (t ≤ e.1) × (e.1 < t + source_rate_window)) es

pub allow-IsValid :
    (s : SourceRateState) (kind : SourceLimitKind) (now : ℕ)
    → IsValid s
    → IsValid (allow s kind now).0
unfolding allow
allow-IsValid s packet now v = ground arith
allow-IsValid s new_session now v = ground arith
allow-IsValid s new_flow now v = ground arith

-- The limit is exact: the counter tells whether the next event in the window is allowed.
allow_open :
    (k kind : SourceLimitKind) (s : SourceRateState) (now : ℕ)
    → now < s.window_start + source_rate_window
    → used k s ≤ limit k
    → (used k (allow s kind now).0 ≡ min (used k s + (if same_kind kind k then 1 else 0)) (limit k))
      × (used k (allow s kind now).0
          ≡ used k s + (if (allow s kind now).1 && same_kind kind k then 1 else 0))
      × ((allow s kind now).0.window_start ≡ s.window_start)
unfolding allow
allow_open packet packet s now h v = ground arith
allow_open packet new_session s now h v = ground arith
allow_open packet new_flow s now h v = ground arith
allow_open new_session packet s now h v = ground arith
allow_open new_session new_session s now h v = ground arith
allow_open new_session new_flow s now h v = ground arith
allow_open new_flow packet s now h v = ground arith
allow_open new_flow new_session s now h v = ground arith
allow_open new_flow new_flow s now h v = ground arith

-- An event after the window's end opens a new one at its own time.
allow_fresh :
    (k kind : SourceLimitKind) (s : SourceRateState) (now : ℕ)
    → s.window_start + source_rate_window ≤ now
    → (used k (allow s kind now).0 ≡ (if same_kind kind k then 1 else 0))
      × ((allow s kind now).1 ≡ true)
      × ((allow s kind now).0.window_start ≡ now)
unfolding allow
allow_fresh packet packet s now h = ground arith
allow_fresh packet new_session s now h = ground arith
allow_fresh packet new_flow s now h = ground arith
allow_fresh new_session packet s now h = ground arith
allow_fresh new_session new_session s now h = ground arith
allow_fresh new_session new_flow s now h = ground arith
allow_fresh new_flow packet s now h = ground arith
allow_fresh new_flow new_session s now h = ground arith
allow_fresh new_flow new_flow s now h = ground arith

-- How many events of one kind a history offers.
pub offered : SourceLimitKind → List Event → ℕ
offered k [] = 0
offered k ((kind, now) ∷ es) = (if same_kind kind k then 1 else 0) + offered k es

used-le-limit : (k : SourceLimitKind) (s : SourceRateState) → IsValid s → used k s ≤ limit k
used-le-limit packet s v = v.packets_fit
used-le-limit new_session s v = v.sessions_fit
used-le-limit new_flow s v = v.flows_fit

-- Of the events that all fall into the open window exactly as many of each kind pass as the
-- window has left, whatever the other kinds do and in whatever order the times are read.
pub admitted_open :
    (k : SourceLimitKind) (s : SourceRateState) (t : ℕ) (es : List Event)
    → IsValid s
    → t ≤ s.window_start
    → IsWithin t es
    → used k s + admitted k s es ≡ min (used k s + offered k es) (limit k)
unfolding admitted offered
admitted_open k s t [] v h w = omega (arith, used-le-limit k s v)
admitted_open k s t ((kind, now) ∷ es) v h w =
    let b = used-le-limit k s v in
    let c = allow_open k kind s now (omega arith) b in
    let ih =
      admitted_open k (allow s kind now).0 t es (allow-IsValid s kind now v) (omega arith) w.1 in
    omega arith

-- In no span shorter than a window, wherever it begins, do more events of one kind pass than twice
-- the limit of the kind.
pub admitted_burst :
    (k : SourceLimitKind) (s : SourceRateState) (t : ℕ) (es : List Event)
    → IsValid s
    → IsWithin t es
    → used k s + admitted k s es ≤ 2 * limit k
unfolding admitted
admitted_burst k s t [] v w = omega (arith, used-le-limit k s v)
admitted_burst k s t ((kind, now) ∷ es) v w =
    elim (le_or_lt (s.window_start + source_rate_window) now) [
      | inl late ↦
          let b = used-le-limit k s v in
          let c = allow_fresh k kind s now late in
          let rest =
            admitted_open k (allow s kind now).0 t es (allow-IsValid s kind now v) (omega arith)
              w.1 in
          ground (arith, rest)
      | inr early ↦
          let b = used-le-limit k s v in
          let c = allow_open k kind s now early b in
          let ih = admitted_burst k (allow s kind now).0 t es (allow-IsValid s kind now v) w.1 in
          omega arith
    ]
