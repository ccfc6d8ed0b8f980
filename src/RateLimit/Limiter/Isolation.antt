-- ===== src/RateLimit/Limiter/Isolation.antt =====
-- The table of sources, and one source's events beside another's
-- (src/main.rs, `SourceRateLimiter::allow`).
use swifttunnel_relay.Prelude.{
  ℕ, ◌≤◌, ◌<◌, ◌≡◌, ◌≢◌, refl, ◌∙◌, ap, ◌⊎◌, inl, inr, ◌+◌, sym, true, false, Option, none, some,
  arith, unwrap_or, Option-cases, lookup, retain, contains_key, length, Distinct, lookup-insert,
  lookup-insert_self, lookup-retain, Bool-cases, not, ◌&&◌, leb, insert-Distinct, retain-Distinct,
  length-insert, length-retain-le, length-retain_lt,
}
use native.Mathlib.Nat.{le_refl}
use swifttunnel_relay.Addr.{IpAddr, ip_eq, ip_beq_iff}
use swifttunnel_relay.RateLimit.Window.{SourceRateState, SourceLimitKind, source_rate_window}
use swifttunnel_relay.RateLimit.Window
use swifttunnel_relay.RateLimit.Limiter.{
  SourceRateLimiter, is_live, max_sessions_total, prune_idle, count_event, allow,
}

pub record IsValid (l : SourceRateLimiter) : Type 0 where
  pub distinct : Distinct l.sources
  pub bounded : length l.sources ≤ max_sessions_total

-- The state that the next event of a source is judged by.
abbrev pub state_of : SourceRateLimiter → IpAddr → ℕ → SourceRateState
state_of l ip now = unwrap_or (lookup ip l.sources) (Window.new now)

-- The map after pruning is the whole map, or that of the live sources.
prune_cases :
    (l : SourceRateLimiter) (now : ℕ)
    → ((prune_idle l now).sources ≡ l.sources)
      ⊎ ((prune_idle l now).sources ≡ retain (λ _ state. is_live now state) l.sources)
unfolding prune_idle
prune_cases l now = ground arith

-- A source that was pruned starts a new window at its next event anyway.
idle_restarts :
    (state : SourceRateState) (kind : SourceLimitKind) (now later : ℕ)
    → is_live now state ≡ false
    → now ≤ later
    → Window.allow state kind later ≡ Window.allow (Window.new later) kind later
unfolding Window.allow
idle_restarts state kind now later h le = ground arith

prune-verdict :
    (l : SourceRateLimiter) (ip : IpAddr) (kind : SourceLimitKind) (now later : ℕ)
    → Distinct l.sources
    → now ≤ later
    → Window.allow (state_of (prune_idle l now) ip later) kind later
      ≡ Window.allow (state_of l ip later) kind later
prune-verdict l ip kind now later d le = elim (prune_cases l now) [
  | inl e ↦ ap (λ m. Window.allow (unwrap_or (lookup ip m) (Window.new later)) kind later) e
  | inr e ↦
      ap (λ m. Window.allow (unwrap_or (lookup ip m) (Window.new later)) kind later) e
      ∙ pruned (lookup ip l.sources) refl
]
  where
    pruned :
        (o : Option SourceRateState)
        → lookup ip l.sources ≡ o
        → Window.allow
            (unwrap_or
              (lookup ip (retain (λ _ state. is_live now state) l.sources))
              (Window.new later))
            kind
            later
          ≡ Window.allow (unwrap_or (lookup ip l.sources) (Window.new later)) kind later
    pruned none e = rw (lookup-retain (λ _ state. is_live now state) ip l.sources d, e) refl
    pruned (some state) e =
        rw (lookup-retain (λ _ state. is_live now state) ip l.sources d, e)
          (ground (arith, idle_restarts state kind now later))

prune_idle-IsValid : (l : SourceRateLimiter) (now : ℕ) → IsValid l → IsValid (prune_idle l now)
unfolding prune_idle
prune_idle-IsValid l now v = ground (
  arith,
  retain-Distinct (λ _ state. is_live now state) l.sources v.distinct,
  length-retain-le (λ _ state. is_live now state) l.sources,
)

count_event-IsValid :
    (l : SourceRateLimiter) (ip : IpAddr) (kind : SourceLimitKind) (now : ℕ)
    → (not (contains_key ip l.sources) && leb max_sessions_total (length l.sources)) ≡ false
    → IsValid l
    → IsValid (count_event l ip kind now).0
unfolding count_event
count_event-IsValid l ip kind now room v =
    let state = (Window.allow (state_of l ip now) kind now).0 in
    record {
      distinct = insert-Distinct ip state l.sources v.distinct;
      bounded = ground (arith, length-insert ip state l.sources, v.bounded);
    }

-- Every call keeps one window for each source and at most MAX_SESSIONS_TOTAL of them.
pub allow-IsValid :
    (l : SourceRateLimiter) (ip : IpAddr) (kind : SourceLimitKind) (now : ℕ)
    → IsValid l
    → IsValid (allow l ip kind now).0
unfolding allow
allow-IsValid l ip kind now v =
    let p = prune_idle l now in
    let w = prune_idle-IsValid l now v in
    elim (Bool-cases
      (not (contains_key ip p.sources) && leb max_sessions_total (length p.sources))) [
        | inl full ↦ rw full w
        | inr room ↦ rw room (count_event-IsValid p ip kind now room w)
      ]

-- A source that has been pruned leaves room in the table.
prune_room :
    (l : SourceRateLimiter) (ip : IpAddr) (now : ℕ) (state : SourceRateState)
    → IsValid l
    → lookup ip l.sources ≡ some state
    → lookup ip (prune_idle l now).sources ≡ none
    → length (prune_idle l now).sources < max_sessions_total
prune_room l ip now state v known gone = elim (prune_cases l now) [
  | inl e ↦ cc (ap (lookup ip) e)
  | inr e ↦
      let found = ap (lookup ip) e ∙ lookup-retain (λ _ s. is_live now s) ip l.sources v.distinct in
      let shorter = length-retain_lt (λ _ s. is_live now s) ip state l.sources known in
      let bounded = v.bounded in ground (arith, ap (length {A = IpAddr × SourceRateState}) e)
]

-- Nor is a source that the table holds ever refused for want of room.
allow-eq-count_event :
    (l : SourceRateLimiter) (ip : IpAddr) (kind : SourceLimitKind) (now : ℕ)
    (state : SourceRateState)
    → IsValid l
    → lookup ip l.sources ≡ some state
    → allow l ip kind now ≡ count_event (prune_idle l now) ip kind now
unfolding allow
allow-eq-count_event l ip kind now state v known =
    elim (Option-cases (lookup ip (prune_idle l now).sources)) [
      | inl gone ↦ ground (arith, prune_room l ip now state v known gone)
      | inr (s, kept) ↦ ground arith
    ]

count_event_lem :
    (l : SourceRateLimiter) (ip : IpAddr) (kind : SourceLimitKind) (now : ℕ)
    → ((count_event l ip kind now).1 ≡ (Window.allow (state_of l ip now) kind now).1)
      × (lookup ip (count_event l ip kind now).0.sources
          ≡ some (Window.allow (state_of l ip now) kind now).0)
unfolding count_event
count_event_lem l ip kind now =
    (refl, lookup-insert_self ip (Window.allow (state_of l ip now) kind now).0 l.sources)

count_event-other :
    (l : SourceRateLimiter) (ip other : IpAddr) (kind : SourceLimitKind) (now : ℕ)
    → ip ≢ other
    → lookup other (count_event l ip kind now).0.sources ≡ lookup other l.sources
unfolding count_event
count_event-other l ip other kind now ne =
    let state = (Window.allow (state_of l ip now) kind now).0 in
    ground (arith, lookup-insert ip other state l.sources, ip_beq_iff ip other)

-- A source in the table is judged by its own window alone: the verdict and the state that it leaves
-- are those of the window before pruning, however full the table is.
pub allow_known :
    (l : SourceRateLimiter) (ip : IpAddr) (kind : SourceLimitKind) (now : ℕ)
    (state : SourceRateState)
    → IsValid l
    → lookup ip l.sources ≡ some state
    → ((allow l ip kind now).1 ≡ (Window.allow state kind now).1)
      × (lookup ip (allow l ip kind now).0.sources ≡ some (Window.allow state kind now).0)
allow_known l ip kind now state v known =
    let own = prune-verdict l ip kind now now v.distinct (le_refl now) in
    let e = allow-eq-count_event l ip kind now state v known in
    let same : state_of l ip now ≡ state = ap (λ o. unwrap_or o (Window.new now)) known in
    let c = count_event_lem (prune_idle l now) ip kind now in (cc, cc)

-- Events of one source never change the window that another source is judged by.
allow-state_of :
    (l : SourceRateLimiter) (ip other : IpAddr) (kind kind' : SourceLimitKind) (now later : ℕ)
    → IsValid l
    → ip ≢ other
    → now ≤ later
    → Window.allow (state_of (allow l ip kind now).0 other later) kind' later
      ≡ Window.allow (state_of l other later) kind' later
unfolding allow
allow-state_of l ip other kind kind' now later v ne le =
    let p = prune_idle l now in
    let pruned = prune-verdict l other kind' now later v.distinct le in
    let verdict =
      λ (o : Option SourceRateState). Window.allow (unwrap_or o (Window.new later)) kind' later in
    elim (Bool-cases
      (not (contains_key ip p.sources) && leb max_sessions_total (length p.sources))) [
        | inl full ↦ rw full pruned
        | inr room ↦ rw room (ap verdict (count_event-other p ip other kind now ne) ∙ pruned)
      ]

-- The source is in the table, or there is room for it.
abbrev IsPlaced : SourceRateLimiter → IpAddr → Type 0
IsPlaced l ip =
    ((state : SourceRateState) × (lookup ip l.sources ≡ some state))
    ⊎ (length l.sources < max_sessions_total)

prune-length :
    (l : SourceRateLimiter) (now : ℕ) → length (prune_idle l now).sources ≤ length l.sources
unfolding prune_idle
prune-length l now = ground (arith, length-retain-le (λ _ state. is_live now state) l.sources)

-- A source with a place is judged by its window.
allow-placed :
    (l : SourceRateLimiter) (ip : IpAddr) (kind : SourceLimitKind) (now : ℕ)
    → IsValid l
    → IsPlaced l ip
    → (allow l ip kind now).1 ≡ (Window.allow (state_of l ip now) kind now).1
unfolding allow
allow-placed l ip kind now v (inl (state, known)) =
    let a = allow_known l ip kind now state v known in
    let same : state_of l ip now ≡ state = ap (λ o. unwrap_or o (Window.new now)) known in
    a.0 ∙ ap (λ s. (Window.allow s kind now).1) (sym same)
allow-placed l ip kind now v (inr room) =
    let own = prune-verdict l ip kind now now v.distinct (le_refl now) in
    let c = count_event_lem (prune_idle l now) ip kind now in
    let few = prune-length l now in
    let open_to : (not (contains_key ip (prune_idle l now).sources)
          && leb max_sessions_total (length (prune_idle l now).sources))
        ≡ false =
      ground (arith, few, room) in
    rw open_to (c.0 ∙ ap (λ r. r.1) own)

-- One event adds at most one source.
length-allow :
    (l : SourceRateLimiter) (ip : IpAddr) (kind : SourceLimitKind) (now : ℕ)
    → length (allow l ip kind now).0.sources ≤ length l.sources + 1
unfolding allow count_event
length-allow l ip kind now =
    let p = prune_idle l now in
    let few = prune-length l now in
    let state = (Window.allow (state_of p ip now) kind now).0 in
    let longer = length-insert ip state p.sources in ground (arith, few, longer)

prune-live :
    (l : SourceRateLimiter) (ip : IpAddr) (now : ℕ) (state : SourceRateState)
    → Distinct l.sources
    → lookup ip l.sources ≡ some state
    → is_live now state ≡ true
    → lookup ip (prune_idle l now).sources ≡ some state
prune-live l ip now state d known live = elim (prune_cases l now) [
  | inl e ↦ ap (lookup ip) e ∙ known
  | inr e ↦
      ap (lookup ip) e
      ∙ (lookup-retain (λ _ s. is_live now s) ip l.sources d ∙ rw known (rw live refl))
]

-- A source that is in use stays in the table while another one is counted.
allow-live :
    (l : SourceRateLimiter) (ip other : IpAddr) (kind : SourceLimitKind) (now : ℕ)
    (state : SourceRateState)
    → IsValid l
    → ip ≢ other
    → lookup other l.sources ≡ some state
    → is_live now state ≡ true
    → lookup other (allow l ip kind now).0.sources ≡ some state
unfolding allow
allow-live l ip other kind now state v ne known live =
    let p = prune_idle l now in
    let kept = prune-live l other now state v.distinct known live in
    elim (Bool-cases
      (not (contains_key ip p.sources) && leb max_sessions_total (length p.sources))) [
        | inl full ↦ rw full kept
        | inr room ↦ rw room (count_event-other p ip other kind now ne ∙ kept)
      ]

-- The source is in use, or the table has room for two more.
abbrev pub HasPlace : SourceRateLimiter → IpAddr → ℕ → Type 0
HasPlace l ip now =
    ((state : SourceRateState) × (lookup ip l.sources ≡ some state) × (is_live now state ≡ true))
    ⊎ (length l.sources + 1 < max_sessions_total)

-- An event of one source, refused or not, does not change whether a later event of another source is
-- allowed, provided that the other source is in the table and in use, or that the table has room for
-- two more sources: pruning does not change it either.
pub allow_isolated :
    (l : SourceRateLimiter) (ip other : IpAddr) (kind kind' : SourceLimitKind) (now later : ℕ)
    → IsValid l
    → ip ≢ other
    → now ≤ later
    → HasPlace l other now
    → (allow (allow l ip kind now).0 other kind' later).1 ≡ (allow l other kind' later).1
allow_isolated l ip other kind kind' now later v ne le place =
    let l' = (allow l ip kind now).0 in
    let placed : IsPlaced l other × IsPlaced l' other = elim place [
      | inl (state, known, live) ↦
          (inl (state, known), inl (state, allow-live l ip other kind now state v ne known live))
      | inr room ↦
          (inr (omega (arith, room)), inr (omega (arith, room, length-allow l ip kind now)))
    ] in
    let after = allow-placed l' other kind' later (allow-IsValid l ip kind now v) placed.1 in
    let before = allow-placed l other kind' later v placed.0 in
    after ∙ (ap (λ r. r.1) (allow-state_of l ip other kind kind' now later v ne le) ∙ sym before)
