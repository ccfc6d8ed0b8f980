-- ===== src/Datapath/Relay/Sound.antt =====
-- The invariant of the shared state between two rounds (src/datapath_v2.rs, src/main.rs).
use swifttunnel_relay.Prelude.{
  ℕ, zero, suc, ap, ◌+◌, ◌<◌, ◌≤◌, ◌≡◌, refl, arith, true, List, [], ◌∷◌, ◌++◌, Option, none, some,
  All, length, get_elem?, set, Bytes, bytes_eq, lookup, Distinct, ltb, inl, inr, Bool-cases, eqb,
  if◌then◌else◌, ◌∙◌,
}
use std.Path.{transport}
use swifttunnel_relay.RateLimit.Window.{SourceRateState}
use swifttunnel_relay.RateLimit.Limiter.{SourceRateLimiter, max_sessions_total}
use swifttunnel_relay.RateLimit.Limiter.Isolation.{IsValid}
use swifttunnel_relay.Sessions.{SessionEntry, Sessions, is_authenticated}
use swifttunnel_relay.Sessions.Counts.{SourceSessionCounts}
use swifttunnel_relay.Sessions.Counts.Agree.{Agrees}
use swifttunnel_relay.Budget.Event.Accounts.{IsAccounted}
use swifttunnel_relay.Datapath.Pool.{BufferPool, try_acquire, release}
use swifttunnel_relay.Datapath.Stats.Drops.{AreTotalled}
use swifttunnel_relay.Datapath.Relay.{
  Relay, Channel, TxPacket, ShardMsg, client_packet, keepalive, remove_session, try_send,
}

-- Each session stands once, is counted at its address, and there is room for no more than the limit.
pub record IsRegistry (sessions : Sessions) (counts : SourceSessionCounts) : Type 0 where
  pub distinct : Distinct sessions
  pub counted : Agrees sessions counts
  pub room : length sessions ≤ max_sessions_total

pub record IsLimited (limiter : SourceRateLimiter) (pending : List SourceRateState) : Type 0 where
  pub valid : IsValid limiter
  pub buckets : 0 < length pending

-- Sums over buffer indices, by a weight for each index: `one_at i` counts where the index `i` stands.
abbrev pub one_at : ℕ → ℕ → ℕ
one_at i j = if eqb j i then 1 else 0

module _ (weight : ℕ → ℕ) where
  unfoldable pub weigh : List ℕ → ℕ
  weigh [] = 0
  weigh (i ∷ is) = weight i + weigh is

  -- the indices below a bound, each once
  unfoldable pub weigh_below : ℕ → ℕ
  weigh_below zero = 0
  weigh_below (suc n) = weight n + weigh_below n

  unfoldable pub queued : List TxPacket → ℕ
  queued [] = 0
  queued (packet ∷ packets) = weight packet.buf_idx + queued packets

  -- the buffer that a message carries
  abbrev pub carried : ShardMsg → ℕ
  carried (client_packet sid client game info idx len now) = weight idx
  carried (keepalive sid client) = 0
  carried (remove_session sid) = 0

  unfoldable pub carried_all : List ShardMsg → ℕ
  carried_all [] = 0
  carried_all (msg ∷ msgs) = carried msg + carried_all msgs

  unfoldable pub in_shards : List (Channel ShardMsg) → ℕ
  in_shards [] = 0
  in_shards (channel ∷ channels) = carried_all channel.items + in_shards channels

  -- wherever a buffer may be
  abbrev pub anywhere :
      List ℕ → List ℕ → Channel TxPacket → Channel TxPacket → List (Channel ShardMsg) → ℕ
  anywhere free held tx_control tx_data shards =
      weigh free
      + (queued tx_control.items + (queued tx_data.items + (in_shards shards + weigh held)))

-- Every buffer of the pool is in one place: it is free, waits in a channel, or is one of the `held` that
-- threads work on. The indices in all these places are, by any weight, the pool's, each once.
pub record IsPooled (held : List ℕ) (pool : BufferPool) (tx_control tx_data : Channel TxPacket)
    (shards : List (Channel ShardMsg)) : Type 0 where
  pub indices : All (λ i. i < pool.slots) pool.free
  pub whole :
      (weight : ℕ → ℕ)
      → anywhere weight pool.free held tx_control tx_data shards ≡ weigh_below weight pool.slots

-- so each index of the pool stands once, and no other does
weigh_below-one_at : (i n : ℕ) → weigh_below (one_at i) n ≡ (if ltb i n then 1 else 0)
unfolding weigh_below
weigh_below-one_at i zero = ground arith
weigh_below-one_at i (suc n) = ground (arith, weigh_below-one_at i n)

pub IsPooled-once :
    (held : List ℕ) (pool : BufferPool) (c t : Channel TxPacket) (shards : List (Channel ShardMsg))
    → IsPooled held pool c t shards
    → (i : ℕ) → anywhere (one_at i) pool.free held c t shards ≡ (if ltb i pool.slots then 1 else 0)
IsPooled-once held pool c t shards p i = p.whole (one_at i) ∙ weigh_below-one_at i pool.slots

weigh_below-count : (n : ℕ) → weigh_below (λ _. 1) n ≡ n
unfolding weigh_below
weigh_below-count zero = refl
weigh_below-count (suc n) = omega (arith, weigh_below-count n)

weigh-count : (is : List ℕ) → weigh (λ _. 1) is ≡ length is
unfolding weigh
weigh-count [] = refl
weigh-count (i ∷ is) = omega (arith, weigh-count is)

weigh-append :
    (weight : ℕ → ℕ) (is : List ℕ) (i : ℕ)
    → weigh weight (is ++ (i ∷ [])) ≡ weigh weight is + weight i
unfolding weigh
weigh-append weight [] i = omega arith
weigh-append weight (j ∷ is) i = omega (arith, weigh-append weight is i)

queued-append :
    (weight : ℕ → ℕ) (ps : List TxPacket) (p : TxPacket)
    → queued weight (ps ++ (p ∷ [])) ≡ queued weight ps + weight p.buf_idx
unfolding queued
queued-append weight [] p = omega arith
queued-append weight (q ∷ ps) p = omega (arith, queued-append weight ps p)

abbrev pub IsSound : List ℕ → Relay → Type 0
IsSound held r =
    IsRegistry r.sessions r.counts
    × IsLimited r.limiter r.pending
    × IsAccounted r.budgets
    × AreTotalled r.stats
    × IsPooled held r.pool r.tx_control r.tx_data r.shards

-- The session is authenticated, and this is its user.
abbrev pub Owned : Sessions → Bytes → Bytes → Type 0
Owned sessions id user =
    (session : SessionEntry) × (lookup id sessions ≡ some session)
    × (is_authenticated session.auth_state ≡ true)
    × (session.user_id ≡ user)

-- No session has lost its owner or got another.
pub record OwnersKept (before sessions : Sessions) : Type 0 where
  pub kept : (id user : Bytes) → Owned before id user → Owned sessions id user

abbrev pub Holds : Sessions → List ℕ → Relay → Type 0
Holds before held r = OwnersKept before r.sessions × IsSound held r

All-append :
    {A : Type 0} (P : A → Type 0) (xs : List A) (x : A) → All P xs → P x → All P (xs ++ (x ∷ []))
All-append P [] x h p = (p, tt)
All-append P (y ∷ ys) x h p = (h.0, All-append P ys x h.1 p)

-- What an index is that `try_acquire` gives, and what is left.
abbrev pub Acquired :
    List ℕ
    → Channel TxPacket
    → Channel TxPacket
    → List (Channel ShardMsg)
    → BufferPool × Option ℕ
    → Type 0
Acquired held c t shards (pool, none) = IsPooled held pool c t shards
Acquired held c t shards (pool, some i) = (i < pool.slots) × IsPooled (i ∷ held) pool c t shards

module _ (held : List ℕ) (c t : Channel TxPacket) (shards : List (Channel ShardMsg)) where
  acquire-free :
      (slots : ℕ) (free : List ℕ)
      → IsPooled held (record { slots = slots; free = free }) c t shards
      → Acquired held c t shards (try_acquire (record { slots = slots; free = free }))
  unfolding try_acquire weigh
  acquire-free slots [] p = p
  acquire-free slots (i ∷ free) p = (
    p.indices.0,
    record { indices = p.indices.1; whole = λ weight. omega (arith, p.whole weight) },
  )

  pub acquire-IsPooled :
      (pool : BufferPool)
      → IsPooled held pool c t shards
      → Acquired held c t shards (try_acquire pool)
  acquire-IsPooled pool p = acquire-free pool.slots pool.free p

  abbrev pub Released : Option BufferPool → Type 0
  Released none = ⊥
  Released (some pool) = IsPooled held pool c t shards

  -- A release finds room: a buffer in hand is not in the free list.
  pub release-IsPooled :
      (pool : BufferPool) (i : ℕ)
      → i < pool.slots
      → IsPooled (i ∷ held) pool c t shards
      → Released (release pool i)
  unfolding release weigh
  release-IsPooled pool i small p =
      let room : ltb (length pool.free) pool.slots ≡ true =
        ground (arith, p.whole (λ _. 1), weigh-count pool.free, weigh_below-count pool.slots) in
      rw room (record {
        indices = All-append _ pool.free i p.indices small;
        whole = λ weight. omega (arith, p.whole weight, weigh-append weight pool.free i);
      })

-- A channel with one more message, where there was room.
abbrev pub Longer : {A : Type 0} → Channel A → A → Option (Channel A) → Type 0
Longer c a none = Unit
Longer c a (some c') = c'.items ≡ c.items ++ (a ∷ [])

pub try_send_lem : {A : Type 0} (c : Channel A) (a : A) → Longer c a (try_send c a)
unfolding try_send
try_send_lem c a = elim (Bool-cases (ltb (length c.items) c.cap)) [
  | inl e ↦ rw e refl
  | inr e ↦ rw e tt
]

pub queued-try_send :
    (weight : ℕ → ℕ) (c c' : Channel TxPacket) (packet : TxPacket)
    → try_send c packet ≡ some c'
    → queued weight c'.items ≡ queued weight c.items + weight packet.buf_idx
queued-try_send weight c c' packet e =
    let l = transport (ap (Longer c packet) e) (try_send_lem c packet) in
    rw l (queued-append weight c.items packet)

carried_all-append :
    (weight : ℕ → ℕ) (msgs : List ShardMsg) (msg : ShardMsg)
    → carried_all weight (msgs ++ (msg ∷ [])) ≡ carried_all weight msgs + carried weight msg
unfolding carried_all
carried_all-append weight [] msg = omega arith
carried_all-append weight (m ∷ msgs) msg = omega (arith, carried_all-append weight msgs msg)

in_shards-set :
    (weight : ℕ → ℕ) (shards : List (Channel ShardMsg)) (i : ℕ) (c c' : Channel ShardMsg)
    → get_elem? shards i ≡ some c
    → in_shards weight (set shards i c') + carried_all weight c.items
      ≡ in_shards weight shards + carried_all weight c'.items
unfolding in_shards
in_shards-set weight [] i c c' e = ground arith
in_shards-set weight (s ∷ shards) zero c c' e =
    let same : s ≡ c = ground (arith, e) in omega (arith, ap (λ x. carried_all weight x.items) same)
in_shards-set weight (s ∷ shards) (suc i) c c' e =
    omega (arith, in_shards-set weight shards i c c' e)

-- A message that a shard takes brings the buffers that it carries.
pub in_shards-send :
    (weight : ℕ → ℕ) (shards : List (Channel ShardMsg)) (i : ℕ) (c c' : Channel ShardMsg)
    (msg : ShardMsg)
    → get_elem? shards i ≡ some c
    → try_send c msg ≡ some c'
    → in_shards weight (set shards i c') ≡ in_shards weight shards + carried weight msg
in_shards-send weight shards i c c' msg found e =
    let l = transport (ap (Longer c msg) e) (try_send_lem c msg) in
    omega (
      arith,
      in_shards-set weight shards i c c' found,
      ap (carried_all weight) l,
      carried_all-append weight c.items msg,
    )
