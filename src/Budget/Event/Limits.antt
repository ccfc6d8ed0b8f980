-- ===== src/Budget/Event/Limits.antt =====
-- What the budgets let through (src/account_budget.rs).
use swifttunnel_relay.Prelude.{
  ℕ, ◌+◌, ◌≡◌, ◌≤◌, ◌<◌, ◌⊎◌, refl, ◌∙◌, ap, Bool, Bool-cases, true, false, Option, Option-cases,
  none, some, List, [], ◌∷◌, inl, inr, arith, if◌then◌else◌, leb, max, min, length, get_or, Bytes,
  bytes_eq, lookup, u64_max, saturating_add,
}
use std.Path.{transport}
use swifttunnel_relay.Budget.Flows.{Flow, flow_eq}
use swifttunnel_relay.Budget.Event.{
  Policy, State, Account, Budgets, account, roll_second, roll_minute, expire_flow, count_at,
  count_packet, is_new_flow, exceeded, track, decide, account_event, event, wrapping_inc,
}

track-observing :
    (p : Policy) (limit slots : ℕ) (s : State) (flow : Option Flow) (new_flow : Bool) (now : ℕ)
    → p.enforce ≡ false
    → (track p limit slots s flow new_flow now).1.1 ≡ true
unfolding track
track-observing p limit slots s none new_flow now h = refl
track-observing p limit slots s (some key) new_flow now h = ground arith

decide-observing :
    (p : Policy) (limit slots : ℕ) (s : State) (flow : Option Flow) (now : ℕ)
    → p.enforce ≡ false
    → (decide p limit slots s flow now).1.1 ≡ true
unfolding decide
decide-observing p limit slots s flow now h =
    let breached = record s { breaches = wrapping_inc s.breaches } in
    ground (
      arith,
      track-observing p limit slots s flow (is_new_flow s flow) now h,
      track-observing p limit slots breached flow (is_new_flow s flow) now h,
    )

abbrev SamePolicy : Budgets → Option (Budgets × Account) → Type 0
SamePolicy b none = Unit
SamePolicy b (some (b', a)) = b'.policy ≡ b.policy

account-policy : (b : Budgets) (user : Bytes) (now : ℕ) → SamePolicy b (account b user now)
unfolding account
account-policy b user now = elim (Option-cases (lookup user b.accounts)) [
  | inr (a, e) ↦ rw (account, e) refl
  | inl e ↦ elim (Bool-cases (leb b.account_limit (length b.accounts))) [
    | inl full ↦ rw (account, e, full) tt
    | inr room ↦ rw (account, e, room) refl
  ]
]

-- Outside enforce mode the budgets drop no packet: whatever was counted, the call allows it.
pub event-observing :
    (b : Budgets) (user : Bytes) (out : Bool) (bytes : ℕ) (flow : Option Flow) (now : ℕ)
    → b.policy.enforce ≡ false
    → (event b user out bytes flow now).1 ≡ true
unfolding event account_event
event-observing b user out bytes flow now h = elim (Option-cases (account b user now)) [
  | inl e ↦ rw (event, e, h) refl
  | inr ((b', a), e) ↦
      let same : b'.policy ≡ b.policy =
        transport (ap (SamePolicy b) e) (account-policy b user now) in
      rw (event, e)
        (decide-observing b'.policy b'.flow_limit _ _ flow (max now a.state.second)
          (ground (arith, same)))
]

-- The packets that an account has offered in its current second, both directions.
abbrev pub offered : State → ℕ
offered s = saturating_add (get_or s.counts 0 0) (get_or s.counts 2 0)

-- The bytes likewise.
abbrev pub offered_bytes : State → ℕ
offered_bytes s = saturating_add (get_or s.counts 1 0) (get_or s.counts 3 0)

track-counts :
    (p : Policy) (limit slots : ℕ) (s : State) (flow : Option Flow) (new_flow : Bool) (now : ℕ)
    → (((track p limit slots s flow new_flow now).1.0).counts ≡ s.counts)
      × (((track p limit slots s flow new_flow now).1.0).second ≡ s.second)
unfolding track
track-counts p limit slots s none new_flow now = (refl, refl)
track-counts p limit slots s (some key) new_flow now = ground arith

decide-counts :
    (p : Policy) (limit slots : ℕ) (s : State) (flow : Option Flow) (now : ℕ)
    → (((decide p limit slots s flow now).1.0).counts ≡ s.counts)
      × (((decide p limit slots s flow now).1.0).second ≡ s.second)
unfolding decide
decide-counts p limit slots s flow now =
    let breached = record s { breaches = wrapping_inc s.breaches } in
    ground (
      arith,
      track-counts p limit slots s flow (is_new_flow s flow) now,
      track-counts p limit slots breached flow (is_new_flow s flow) now,
    )

decide-allowed :
    (p : Policy) (limit slots : ℕ) (s : State) (flow : Option Flow) (now : ℕ)
    → p.enforce ≡ true
    → (decide p limit slots s flow now).1.1 ≡ true
    → exceeded p s (is_new_flow s flow) ≡ false
unfolding decide
decide-allowed p limit slots s flow now h ok = ground arith

-- A packet of one account: the slots taken when it comes, its direction and size, its flow, the clock.
pub record Offer : Type 0 where
  pub slots : ℕ
  pub out : Bool
  pub bytes : ℕ
  pub flow : Option Flow
  pub now : ℕ

abbrev pub offer : Policy → ℕ → State → Offer → ℕ × (State × Bool)
offer p limit s o = account_event p limit o.slots s o.out o.bytes o.flow o.now

-- How many packets of a sequence are let through.
unfoldable pub admitted : Policy → ℕ → State → List Offer → ℕ
admitted p limit s [] = 0
admitted p limit s (o ∷ rest) =
    let (_, (s', ok)) = offer p limit s o in (if ok then 1 else 0) + admitted p limit s' rest

-- The four counters are there.
abbrev pub HasCounts : State → Type 0
HasCounts s = (a : ℕ) × (b : ℕ) × (c : ℕ) × (d : ℕ) × (s.counts ≡ a ∷ b ∷ c ∷ d ∷ [])

exceeded-offered :
    (p : Policy) (s : State) (new_flow : Bool)
    → exceeded p s new_flow ≡ false
    → 0 < p.packets
    → offered s ≤ p.packets
unfolding exceeded
exceeded-offered p s new_flow h k = ground arith

-- What one packet of the current second does to the second's count.
record Counted (p : Policy) (s : State) (s' : State) (ok : Bool) : Type 0 where
  four : HasCounts s'
  second : s'.second ≡ s.second
  one_more : offered s' ≡ min (offered s + 1) u64_max
  kept : (ok ≡ false) ⊎ (offered s' ≤ p.packets)

-- Within the second, the windows stay open and expiry leaves the counters alone.
same_second :
    (slots : ℕ) (s : State) (flow : Option Flow) (now : ℕ)
    → now ≡ s.second
    → ((expire_flow slots (roll_minute (roll_second s now) now) flow now).1.counts ≡ s.counts)
      × ((expire_flow slots (roll_minute (roll_second s now) now) flow now).1.second ≡ s.second)
unfolding expire_flow roll_minute roll_second
same_second slots s none now h = (ground (arith, h), ground (arith, h))
same_second slots s (some key) now h = (ground (arith, h), ground (arith, h))

count_packet_lem :
    (s : State) (out : Bool) (bytes a b c d : ℕ)
    → s.counts ≡ a ∷ b ∷ c ∷ d ∷ []
    → (((count_packet s out bytes).counts)
        ≡ (if out then a else saturating_add a 1)
          ∷ (if out then b else saturating_add b bytes)
          ∷ (if out then saturating_add c 1 else c)
          ∷ (if out then saturating_add d bytes else d)
          ∷ [])
      × ((count_packet s out bytes).second ≡ s.second)
unfolding count_packet count_at
count_packet_lem s true bytes a b c d e = (simp e refl, refl)
count_packet_lem s false bytes a b c d e = (simp e refl, refl)

offer_lem :
    (p : Policy) (limit : ℕ) (s : State) (o : Offer)
    → p.enforce ≡ true
    → 0 < p.packets
    → HasCounts s
    → o.now ≤ s.second
    → Counted p s (offer p limit s o).1.0 (offer p limit s o).1.1
unfolding account_event
offer_lem p limit s o on some_limit (a, b, c, d, e) same =
    let now = max o.now s.second in
    let rolled = roll_minute (roll_second s now) now in
    let expired = expire_flow o.slots rolled o.flow now in
    let counted = count_packet expired.1 o.out o.bytes in
    let (ec, es) = same_second o.slots s o.flow now (omega arith) in
    let (cc, cs) = count_packet_lem expired.1 o.out o.bytes a b c d (ec ∙ e) in
    let (dc, ds) = decide-counts p limit expired.0 counted o.flow now in
    let total = λ (l : List ℕ). saturating_add (get_or l 0 0) (get_or l 2 0) in
    let before : offered s ≡ saturating_add a c = ap total e in
    let after : offered counted
        ≡ saturating_add (if o.out then a else saturating_add a 1)
            (if o.out then saturating_add c 1 else c) =
      ap total cc in
    let last = ap total dc in
    record {
      four = (_, _, _, _, dc ∙ cc);
      second = ds ∙ (cs ∙ es);
      one_more = ground (arith, before, after, last);
      kept = elim (Bool-cases (offer p limit s o).1.1) [
        | inr refused ↦ inl refused
        | inl passed ↦ inr (
            omega (
              arith,
              last,
              exceeded-offered p counted (is_new_flow counted o.flow)
                  (decide-allowed p limit expired.0 counted o.flow now on passed) some_limit,
            ))
      ];
    }

-- The clocks of these packets have not passed the account's second.
abbrev pub InSecond : ℕ → List Offer → Type 0
InSecond second [] = Unit
InSecond second (o ∷ rest) = (o.now ≤ second) × InSecond second rest

-- In enforce mode, an account gets no more packets through in a second than the limit leaves it,
-- whatever the directions, sizes and flows, and whatever other accounts do to the slots in between;
-- clocks that lag behind count in the same second.
pub admitted_bound :
    (p : Policy) (limit : ℕ) (s : State) (offers : List Offer)
    → p.enforce ≡ true
    → 0 < p.packets
    → p.packets < u64_max
    → HasCounts s
    → InSecond s.second offers
    → admitted p limit s offers + offered s ≤ max p.packets (offered s)
unfolding admitted
admitted_bound p limit s [] on some_limit small four same = omega arith
admitted_bound p limit s (o ∷ rest) on some_limit small four (now, later) =
    let c = offer_lem p limit s o on some_limit four now in
    let s' = (offer p limit s o).1.0 in
    let rest_same : InSecond s'.second rest = rw c.second later in
    let ih = admitted_bound p limit s' rest on some_limit small c.four rest_same in
    ground (arith, ih, c.one_more, c.kept)
