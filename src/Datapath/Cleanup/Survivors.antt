-- ===== src/Datapath/Cleanup/Survivors.antt =====
-- The sessions that a cleanup leaves (src/datapath_v2.rs, the session cleanup task).
use swifttunnel_relay.Prelude.{
  ℕ, ◌+◌, ◌-◌, ◌<◌, ◌≡◌, ◌⊎◌, ◌↔◌, inl, inr, refl, sym, ap, ◌∙◌, arith, Bool, true, false, not,
  List, [], ◌∷◌, Option, none, some, Option-cases, Bool-cases, if◌then◌else◌, length, get_elem?,
  Bytes, bytes_eq, ◌==◌, lookup, retain, keep_if, lookup-retain, retain-Distinct, length-retain-le,
  saturating_add,
}
use swifttunnel_relay.Addr.{IpAddr, ip_eq}
use swifttunnel_relay.Sessions.{SessionEntry, Sessions}
use swifttunnel_relay.Sessions.Counts.{source_session_count, decrement_source_session_count}
use swifttunnel_relay.Sessions.Counts.Agree.{sessions_from, count-decrement}
use swifttunnel_relay.Budget.Event.Accounts.{IsAccounted}
use swifttunnel_relay.Datapath.Stats.Drops.{AreTotalled}
use swifttunnel_relay.Datapath.Relay.{
  Relay, Channel, ShardMsg, remove_session, try_send, shard_for_session,
}
use swifttunnel_relay.Datapath.Relay.Sound.{
  IsSound, IsLimited, IsPooled, IsRegistry, in_shards, in_shards-send,
}
use swifttunnel_relay.Datapath.Cleanup.{
  session_idle_limit, lease_grace_secs, lease_long_over, is_over, send_remove, forget, sweep,
  cleanup,
}

-- a message without a buffer
in_shards-send_remove :
    (weight : ℕ → ℕ) (id : Bytes) (shards : List (Channel ShardMsg))
    → in_shards weight (send_remove id shards) ≡ in_shards weight shards
unfolding send_remove
in_shards-send_remove weight id shards =
    let i = shard_for_session id (length shards) in
    elim (Option-cases (get_elem? shards i)) [
      | inl e ↦ rw (send_remove, e) refl
      | inr (c, e) ↦ elim (Option-cases (try_send c (remove_session id))) [
        | inl e' ↦ rw (send_remove, e, e') refl
        | inr (c', e') ↦
            rw (send_remove, e, e')
              (omega (arith, in_shards-send weight shards i c c' (remove_session id) e e'))
      ]
    ]

-- what does not depend on the sessions
abbrev Rest : List ℕ → Relay → Type 0
Rest held r =
    IsLimited r.limiter r.pending
    × IsAccounted r.budgets
    × AreTotalled r.stats
    × IsPooled held r.pool r.tx_control r.tx_data r.shards

Rest-forget :
    (held : List ℕ) (id : Bytes) (session : SessionEntry) (r : Relay) (over : Bool)
    → Rest held r
    → Rest held (if over then forget id session r else r)
unfolding forget
Rest-forget held id session r true (lim, bud, tot, buf) = (
  lim,
  bud,
  tot,
  record {
    indices = buf.indices;
    whole = λ weight. omega (arith, buf.whole weight, in_shards-send_remove weight id r.shards);
  },
)
Rest-forget held id session r false rest = rest

module _ (now now_unix : ℕ) where
  abbrev stays : Bytes → SessionEntry → Bool
  stays id session = not (is_over now now_unix session)

  Rest-sweep :
      (held : List ℕ) (m : Sessions) (r : Relay) → Rest held r → Rest held (sweep now now_unix m r)
  unfolding sweep
  Rest-sweep held [] r rest = rest
  Rest-sweep held ((id, session) ∷ m) r rest =
      Rest-sweep held m _ (Rest-forget held id session r (is_over now now_unix session) rest)

  gone :
      (session : SessionEntry) (m : Sessions) (r : Relay) (base : IpAddr → ℕ)
      → ((ip : IpAddr)
          → source_session_count r.counts ip
            ≡ base ip + ((if session.client_addr.ip == ip then 1 else 0) + sessions_from ip m))
      → (ip : IpAddr)
      → source_session_count (decrement_source_session_count r.counts session.client_addr.ip) ip
        ≡ base ip + sessions_from ip m
  gone session m r base h ip =
      ground (arith, h ip, count-decrement r.counts session.client_addr.ip ip)

  -- The counts of the sessions that are still to be visited, and of those that stay.
  abbrev CountsFor : Sessions → Type 0
  CountsFor m =
      (r : Relay) (base : IpAddr → ℕ)
      → ((ip : IpAddr) → source_session_count r.counts ip ≡ base ip + sessions_from ip m)
      → (ip : IpAddr)
      → source_session_count (sweep now now_unix m r).counts ip
        ≡ base ip + sessions_from ip (retain stays m)

  count-visit :
      (id : Bytes) (session : SessionEntry) (m : Sessions) (over : Bool)
      → CountsFor m
      → (r : Relay) (base : IpAddr → ℕ)
      → ((ip : IpAddr)
          → source_session_count r.counts ip
            ≡ base ip + ((if session.client_addr.ip == ip then 1 else 0) + sessions_from ip m))
      → (ip : IpAddr)
      → source_session_count
          (sweep now now_unix m (if over then forget id session r else r)).counts
          ip
        ≡ base ip
          + sessions_from ip (if not over then (id, session) ∷ retain stays m else retain stays m)
  unfolding forget sessions_from
  count-visit id session m true rest r base h ip =
      rest (forget id session r) base (gone session m r base h) ip
  count-visit id session m false rest r base h ip =
      let one : IpAddr → ℕ = λ j. if session.client_addr.ip == j then 1 else 0 in
      omega (arith, rest r (λ j. base j + one j) (λ j. omega (arith, h j)) ip)

  count-sweep : (m : Sessions) → CountsFor m
  unfolding sweep sessions_from retain
  count-sweep [] r base h ip = h ip
  count-sweep ((id, session) ∷ m) r base h ip =
      count-visit id session m (is_over now now_unix session) (count-sweep m) r base h ip

  -- The sessions that a cleanup leaves are those that are not over.
  pub cleanup-IsRegistry :
      (r : Relay)
      → IsRegistry r.sessions r.counts
      → IsRegistry (cleanup now now_unix r).sessions (cleanup now now_unix r).counts
  unfolding cleanup
  cleanup-IsRegistry r reg = record {
    distinct = retain-Distinct stays r.sessions reg.distinct;
    counted = record {
      agree = λ ip.
          omega
            (arith, count-sweep r.sessions r (λ _. 0) (λ j. omega (arith, reg.counted.agree j)) ip);
    };
    room = omega (arith, length-retain-le stays r.sessions, reg.room);
  }

-- A cleanup keeps the state sound: the counts of the sources agree with the sessions that are left,
-- and every buffer of the pool is still in one place.
pub cleanup-IsSound :
    (now now_unix : ℕ) (held : List ℕ) (r : Relay)
    → IsSound held r
    → IsSound held (cleanup now now_unix r)
unfolding cleanup
cleanup-IsSound now now_unix held r (reg, lim, bud, tot, buf) =
    let (lim', bud', tot', buf') = Rest-sweep now now_unix held r.sessions r (lim, bud, tot, buf) in
    (cleanup-IsRegistry now now_unix r reg, lim', bud', tot', buf')

keep_if_iff :
    (p : Bytes → SessionEntry → Bool) (id : Bytes) (found : Option SessionEntry)
    (session : SessionEntry)
    → (keep_if p id found ≡ some session) ↔ ((found ≡ some session) × (p id session ≡ true))
keep_if_iff p id none session = ground arith
keep_if_iff p id (some old) session = (
  λ e. elim (Bool-cases (p id old)) [
    | inl keeps ↦
        let same : old ≡ session = ground (arith, e, keeps) in
        (ap some same, ap (p id) (sym same) ∙ keeps)
    | inr drops ↦ absurd (ground (arith, e, drops))
  ],
  λ (same, keeps).
      let is : old ≡ session = ground (arith, same) in
      let keeps' : p id old ≡ true = ap (p id) is ∙ keeps in ground (arith, same, keeps'),
)

-- A session that is not over: it has been active, and has no lease or one whose grace runs.
abbrev pub IsLive : ℕ → ℕ → SessionEntry → Type 0
IsLive now now_unix session =
    (now - session.last_activity < session_idle_limit)
    × ((session.lease_expires_at_unix ≡ none)
        ⊎ ((expires_at : ℕ) × (session.lease_expires_at_unix ≡ some expires_at)
            × (now_unix < saturating_add expires_at lease_grace_secs)))

over_iff :
    (now now_unix : ℕ) (session : SessionEntry)
    → (not (is_over now now_unix session) ≡ true) ↔ IsLive now now_unix session
unfolding is_over lease_long_over
over_iff now now_unix session = elim (Option-cases session.lease_expires_at_unix) [
  | inl no_lease ↦
      (λ e. (ground (arith, e, no_lease), inl no_lease), λ (active, _). ground (arith, no_lease))
  | inr (expires_at, lease) ↦ (
    λ e. (ground (arith, e, lease), inr (expires_at, lease, ground (arith, e, lease))),
    λ (active, leased). elim leased [
      | inl no_lease ↦ absurd (ground (arith, no_lease, lease))
      | inr (expires_at', lease', running) ↦ ground (arith, lease, lease', active, running)
    ],
  )
]

-- A session is left by a cleanup exactly if it was there, has been active in the last 210 seconds, and
-- either has no lease or one that expired less than the grace ago.
pub cleanup-survivors :
    (now now_unix : ℕ) (held : List ℕ) (r : Relay) (id : Bytes) (session : SessionEntry)
    → IsSound held r
    → (lookup id (cleanup now now_unix r).sessions ≡ some session)
      ↔ ((lookup id r.sessions ≡ some session) × IsLive now now_unix session)
unfolding cleanup
cleanup-survivors now now_unix held r id session (reg, lim, bud, tot, buf) =
    let kept = lookup-retain (λ _ s. not (is_over now now_unix s)) id r.sessions reg.distinct in
    let here =
      keep_if_iff (λ _ s. not (is_over now now_unix s)) id (lookup id r.sessions) session in
    let live = over_iff now now_unix session in
    (
      λ e. let (was, stayed) = here.0 (sym kept ∙ e) in (was, live.0 stayed),
      λ (was, lives). kept ∙ here.1 (was, live.1 lives),
    )
