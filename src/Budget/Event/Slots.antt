-- ===== src/Budget/Event/Slots.antt =====
-- The flow slots that all accounts share (src/account_budget.rs).
use swifttunnel_relay.Prelude.{
  ℕ, ◌+◌, ◌≡◌, ◌≤◌, refl, ap, Bool, true, false, Option, none, some, arith, if◌then◌else◌, max,
  length, bytes_eq, Distinct, insert-Distinct, remove-Distinct, length-insert, length-remove,
}
use swifttunnel_relay.Budget.Flows.{Flow, flow_eq}
use swifttunnel_relay.Budget.Event.{
  Policy, State, roll_second, roll_minute, expire_flow, count_at, count_packet, is_new_flow, track,
  decide, account_event, wrapping_inc, exceeded,
}

-- From one slot counter and account state to the next: the counter moves with the number of flows.
pub record Balanced (flow_limit slots : ℕ) (s : State) (slots' : ℕ) (s' : State) : Type 0 where
  pub balance : slots' + length s.flows ≡ slots + length s'.flows
  pub bound : slots' ≤ flow_limit
  pub distinct : Distinct s'.flows

track_lem :
    (p : Policy) (limit slots : ℕ) (s : State) (flow : Option Flow) (new_flow : Bool) (now : ℕ)
    → new_flow ≡ is_new_flow s flow
    → slots ≤ limit
    → Distinct s.flows
    → Balanced limit slots s
        (track p limit slots s flow new_flow now).0
        (track p limit slots s flow new_flow now).1.0
unfolding track is_new_flow
track_lem p limit slots s none new_flow now e h d = record {
  balance = refl;
  bound = h;
  distinct = d;
}
track_lem p limit slots s (some key) new_flow now e h d = record {
  balance = ground (arith, length-insert key now s.flows);
  bound = ground arith;
  distinct = ground (arith, insert-Distinct key now s.flows d);
}

Balanced-if :
    (limit slots : ℕ) (s : State) (c : Bool) (x y : ℕ × (State × Bool))
    → Balanced limit slots s x.0 x.1.0
    → Balanced limit slots s y.0 y.1.0
    → Balanced limit slots s (if c then x else y).0 (if c then x else y).1.0
Balanced-if limit slots s true x y h k = h
Balanced-if limit slots s false x y h k = k

decide_lem :
    (p : Policy) (limit slots : ℕ) (s : State) (flow : Option Flow) (now : ℕ)
    → slots ≤ limit
    → Distinct s.flows
    → Balanced limit slots s
        (decide p limit slots s flow now).0
        (decide p limit slots s flow now).1.0
unfolding decide is_new_flow
decide_lem p limit slots s flow now h d =
    let breached = record s { breaches = wrapping_inc s.breaches } in
    Balanced-if limit slots s (exceeded p s (is_new_flow s flow)) _ _
      (Balanced-if limit slots s p.enforce _ _ (record { balance = refl; bound = h; distinct = d })
        (of_breached (track_lem p limit slots breached flow (is_new_flow s flow) now refl h d)))
      (track_lem p limit slots s flow (is_new_flow s flow) now refl h d)
  where
    of_breached :
        {slots' : ℕ} {s' : State}
        → Balanced limit slots (record s { breaches = wrapping_inc s.breaches }) slots' s'
        → Balanced limit slots s slots' s'
    of_breached b = record { balance = b.balance; bound = b.bound; distinct = b.distinct }

expire_flow_lem :
    (limit slots : ℕ) (s : State) (flow : Option Flow) (now : ℕ)
    → slots ≤ limit
    → length s.flows ≤ slots
    → Distinct s.flows
    → Balanced limit slots s (expire_flow slots s flow now).0 (expire_flow slots s flow now).1
unfolding expire_flow
expire_flow_lem limit slots s none now h room d = record { balance = refl; bound = h; distinct = d }
expire_flow_lem limit slots s (some key) now h room d = record {
  balance = ground (arith, length-remove key s.flows d);
  bound = ground arith;
  distinct = ground (arith, remove-Distinct key s.flows d);
}

flows-roll : (s : State) (now : ℕ) → (roll_minute (roll_second s now) now).flows ≡ s.flows
unfolding roll_minute roll_second
flows-roll s now = ground arith

pub account_event_lem :
    (p : Policy) (limit slots : ℕ) (s : State) (out : Bool) (bytes : ℕ) (flow : Option Flow)
    (now : ℕ)
    → slots ≤ limit
    → length s.flows ≤ slots
    → Distinct s.flows
    → Balanced limit slots s
        (account_event p limit slots s out bytes flow now).0
        (account_event p limit slots s out bytes flow now).1.0
unfolding account_event count_packet count_at
account_event_lem p limit slots s out bytes flow now h room d =
    let now' = max now s.second in
    let rolled = roll_minute (roll_second s now') now' in
    let same = flows-roll s now' in
    let b = expire_flow_lem limit slots rolled flow now' h (rw same room) (rw same d) in
    let counted = count_packet (expire_flow slots rolled flow now').1 out bytes in
    let c =
      decide_lem p limit (expire_flow slots rolled flow now').0 counted flow now' b.bound
        b.distinct in
    record {
      balance = omega (arith, b.balance, c.balance, ap (λ f. length f) same);
      bound = c.bound;
      distinct = c.distinct;
    }
