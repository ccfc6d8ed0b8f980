-- ===== src/Budget/Event/Maintain.antt =====
-- `Budgets::maintain` and the invariant of the budgets (src/account_budget.rs).
use swifttunnel_relay.Prelude.{
  ℕ, ◌+◌, ◌-◌, ◌≡◌, ◌≤◌, refl, Bool, Bool-cases, ◌||◌, none, [], ◌∷◌, inl, inr, arith,
  if◌then◌else◌, ltb, length, Bytes, bytes_eq, Assoc, lookup, retain, Distinct, retain-Distinct,
  length-retain-le,
}
use swifttunnel_relay.Budget.Flows.{Flow, flow_eq}
use swifttunnel_relay.Budget.Event.{
  Account, Budgets, drop_idle, account_idle_seconds, prune_flows, maintain, flow_idle_seconds,
}
use swifttunnel_relay.Budget.Event.Accounts.{tracked, FlowsDistinct, IsAccounted}

drop_idle-absent :
    (held : Bytes → Bool) (now slots : ℕ) (user : Bytes) (m : Assoc Bytes Account)
    → lookup user m ≡ none
    → lookup user (drop_idle held now slots m).1 ≡ none
unfolding drop_idle lookup
drop_idle-absent held now slots user [] h = refl
drop_idle-absent held now slots user ((j, a) ∷ m) h =
    let keep = ltb (now - a.last_used) account_idle_seconds || held j in
    let next = if keep then slots else slots - length a.state.flows in
    ground (arith, drop_idle-absent held now next user m)

-- What the two passes of `maintain` leave.
record Kept (slots : ℕ) (m : Assoc Bytes Account) (slots' : ℕ) (m' : Assoc Bytes Account)
    : Type 0 where
  users : Distinct m'
  flows : FlowsDistinct m'
  balance : slots' + tracked m ≡ slots + tracked m'
  size : length m' ≤ length m
  fewer : slots' ≤ slots

drop_idle_lem :
    (held : Bytes → Bool) (now slots : ℕ) (m : Assoc Bytes Account)
    → Distinct m
    → FlowsDistinct m
    → tracked m ≤ slots
    → Kept slots m (drop_idle held now slots m).0 (drop_idle held now slots m).1
unfolding drop_idle tracked
drop_idle_lem held now slots [] d f h = record {
  users = d;
  flows = f;
  balance = refl;
  size = omega arith;
  fewer = omega arith;
}
drop_idle_lem held now slots ((user, a) ∷ m) d f h =
    elim (Bool-cases (ltb (now - a.last_used) account_idle_seconds || held user)) [
      | inl keep ↦
          let r = drop_idle_lem held now slots m d.1 f.1 (omega arith) in
          rw (drop_idle, keep)
            (record {
              users = (drop_idle-absent held now slots user m d.0, r.users);
              flows = (f.0, r.flows);
              balance = omega (arith, r.balance);
              size = omega (arith, r.size);
              fewer = r.fewer;
            })
      | inr gone ↦
          let r = drop_idle_lem held now (slots - length a.state.flows) m d.1 f.1 (omega arith) in
          rw (drop_idle, gone)
            (record {
              users = r.users;
              flows = r.flows;
              balance = omega (arith, r.balance);
              size = omega (arith, r.size);
              fewer = omega (arith, r.fewer);
            })
    ]

prune_flows-absent :
    (now slots : ℕ) (user : Bytes) (m : Assoc Bytes Account)
    → lookup user m ≡ none
    → lookup user (prune_flows now slots m).1 ≡ none
unfolding prune_flows lookup
prune_flows-absent now slots user [] h = refl
prune_flows-absent now slots user ((j, a) ∷ m) h =
    let flows = retain (λ _ seen. ltb (now - seen) flow_idle_seconds) a.state.flows in
    ground (arith, prune_flows-absent now (slots - (length a.state.flows - length flows)) user m)

prune_flows_lem :
    (now slots : ℕ) (m : Assoc Bytes Account)
    → Distinct m
    → FlowsDistinct m
    → tracked m ≤ slots
    → Kept slots m (prune_flows now slots m).0 (prune_flows now slots m).1
unfolding prune_flows tracked
prune_flows_lem now slots [] d f h = record {
  users = d;
  flows = f;
  balance = refl;
  size = omega arith;
  fewer = omega arith;
}
prune_flows_lem now slots ((user, a) ∷ m) d f h =
    let live = λ (_ : Flow) (seen : ℕ). ltb (now - seen) flow_idle_seconds in
    let flows = retain live a.state.flows in
    let le = length-retain-le live a.state.flows in
    let slots' = slots - (length a.state.flows - length flows) in
    let r = prune_flows_lem now slots' m d.1 f.1 (omega (arith, le)) in
    record {
      users = (prune_flows-absent now slots' user m d.0, r.users);
      flows = (retain-Distinct live a.state.flows f.0, r.flows);
      balance = omega (arith, r.balance, le);
      size = omega (arith, r.size);
      fewer = omega (arith, r.fewer);
    }

-- Maintenance keeps the accounting, whichever accounts are held by running calls.
pub maintain-IsAccounted :
    (b : Budgets) (held : Bytes → Bool) (now : ℕ)
    → IsAccounted b
    → IsAccounted (maintain b held now)
unfolding maintain
maintain-IsAccounted b held now v =
    let d = drop_idle_lem held now b.slots b.accounts v.users v.flows (omega (arith, v.taken)) in
    let p =
      prune_flows_lem now (drop_idle held now b.slots b.accounts).0
        (drop_idle held now b.slots b.accounts).1 d.users d.flows
        (omega (arith, d.balance, v.taken)) in
    record {
      users = p.users;
      flows = p.flows;
      taken = omega (arith, p.balance, d.balance, v.taken);
      flow_room = omega (arith, p.fewer, d.fewer, v.flow_room);
      account_room = omega (arith, p.size, d.size, v.account_room);
    }
