-- ===== src/Budget/Event/Accounts.antt =====
-- What holds of the budgets of all accounts between two calls (src/account_budget.rs).
use swifttunnel_relay.Prelude.{
  ℕ, ◌+◌, ◌≡◌, ◌≤◌, refl, ap, Bool, Bool-cases, ◌==◌, Option, Option-cases, none, some, [], ◌∷◌,
  inl, inr, arith, leb, max, length, Bytes, bytes_eq, Assoc, lookup, insert, Distinct,
  lookup-insert_self, insert-Distinct, length-insert,
}
use std.Path.{transport}
use swifttunnel_relay.Budget.Flows.{Flow, flow_eq}
use swifttunnel_relay.Budget.Event.{Account, Budgets, new_account, account, account_event, event}
use swifttunnel_relay.Budget.Event.Slots.{Balanced, account_event_lem}

-- How many flows the accounts track.
unfoldable pub tracked : Assoc Bytes Account → ℕ
tracked [] = 0
tracked ((user, a) ∷ rest) = length a.state.flows + tracked rest

abbrev pub FlowsDistinct : Assoc Bytes Account → Type 0
FlowsDistinct [] = Unit
FlowsDistinct ((user, a) ∷ rest) = Distinct a.state.flows × FlowsDistinct rest

-- What holds between calls: one entry for each account and flow, as many slots taken as flows are
-- tracked, and both limits kept.
pub record IsAccounted (b : Budgets) : Type 0 where
  pub users : Distinct b.accounts
  pub flows : FlowsDistinct b.accounts
  pub taken : b.slots ≡ tracked b.accounts
  pub flow_room : b.slots ≤ b.flow_limit
  pub account_room : length b.accounts ≤ b.account_limit

abbrev share : Option Account → ℕ
share none = 0
share (some a) = length a.state.flows

tracked-insert :
    (user : Bytes) (a : Account) (m : Assoc Bytes Account)
    → tracked (insert user a m) + share (lookup user m) ≡ tracked m + length a.state.flows
unfolding tracked insert lookup
tracked-insert user a [] = omega arith
tracked-insert user a ((j, w) ∷ m) = ground (arith, tracked-insert user a m)

insert-FlowsDistinct :
    (user : Bytes) (a : Account) (m : Assoc Bytes Account)
    → Distinct a.state.flows
    → FlowsDistinct m
    → FlowsDistinct (insert user a m)
unfolding insert
insert-FlowsDistinct user a [] d f = (d, tt)
insert-FlowsDistinct user a ((j, w) ∷ m) d f = ground (arith, insert-FlowsDistinct user a m d f.1)

lookup-share :
    (user : Bytes) (a : Account) (m : Assoc Bytes Account)
    → lookup user m ≡ some a
    → FlowsDistinct m
    → (length a.state.flows ≤ tracked m) × Distinct a.state.flows
unfolding tracked lookup
lookup-share user a [] h f = ground arith
lookup-share user a ((j, w) ∷ m) h f = elim (Bool-cases (j == user)) [
  | inl e ↦ let same : w ≡ a = ground (arith, e, h) in rw⁻¹ same (omega arith, f.0)
  | inr e ↦
      let found : lookup user m ≡ some a = ground (arith, e, h) in
      let (le, d) = lookup-share user a m found f.1 in (omega (arith, le), d)
]

-- What `account` promises of its result.
abbrev AccountOk : Budgets → Bytes → Option (Budgets × Account) → Type 0
AccountOk b user none = Unit
AccountOk b user (some (b', a)) =
    IsAccounted b' × (lookup user b'.accounts ≡ some a) × (b'.policy ≡ b.policy)

account_lem :
    (b : Budgets) (user : Bytes) (now : ℕ) → IsAccounted b → AccountOk b user (account b user now)
unfolding account
account_lem b user now v = elim (Option-cases (lookup user b.accounts)) [
  | inr (a, e) ↦ rw (account, e) (v, e, refl)
  | inl e ↦ elim (Bool-cases (leb b.account_limit (length b.accounts))) [
    | inl full ↦ rw (account, e, full) tt
    | inr room ↦
        rw (account, e, room)
          (
            record {
              users = insert-Distinct user (new_account now) b.accounts v.users;
              flows = insert-FlowsDistinct user (new_account now) b.accounts tt v.flows;
              taken =
                  omega
                    (arith, tracked-insert user (new_account now) b.accounts, ap share e, v.taken);
              flow_room = v.flow_room;
              account_room =
                  ground (arith, length-insert user (new_account now) b.accounts, e, room);
            },
            lookup-insert_self user (new_account now) b.accounts,
            refl,
          )
  ]
]

put_back :
    (b : Budgets) (user : Bytes) (a a' : Account) (slots : ℕ)
    → IsAccounted b
    → lookup user b.accounts ≡ some a
    → Balanced b.flow_limit b.slots a.state slots a'.state
    → IsAccounted (record b { slots = slots; accounts = insert user a' b.accounts })
put_back b user a a' slots v e bal = record {
  users = insert-Distinct user a' b.accounts v.users;
  flows = insert-FlowsDistinct user a' b.accounts bal.distinct v.flows;
  taken = omega (arith, tracked-insert user a' b.accounts, ap share e, v.taken, bal.balance);
  flow_room = bal.bound;
  account_room = ground (arith, length-insert user a' b.accounts, e, v.account_room);
}

-- A call keeps the accounting: the slots taken are the flows tracked, and neither limit is passed.
pub event-IsAccounted :
    (b : Budgets) (user : Bytes) (out : Bool) (bytes : ℕ) (flow : Option Flow) (now : ℕ)
    → IsAccounted b
    → IsAccounted (event b user out bytes flow now).0
unfolding event
event-IsAccounted b user out bytes flow now v = elim (Option-cases (account b user now)) [
  | inl e ↦
      rw (event, e)
        (record {
          users = v.users;
          flows = v.flows;
          taken = v.taken;
          flow_room = v.flow_room;
          account_room = v.account_room;
        })
  | inr ((b', a), e) ↦
      let ok : AccountOk b user (some (b', a)) =
        transport (ap (AccountOk b user) e) (account_lem b user now v) in
      let (v', found, _) = ok in
      let (le, d) = lookup-share user a b'.accounts found v'.flows in
      let bal =
        account_event_lem b'.policy b'.flow_limit b'.slots a.state out bytes flow now v'.flow_room
          (omega (arith, le, v'.taken)) d in
      rw (event, e)
        (put_back b' user a
          (record {
            state = (account_event b'.policy b'.flow_limit b'.slots a.state out bytes flow now).1.0;
            last_used = max a.last_used now;
          })
          (account_event b'.policy b'.flow_limit b'.slots a.state out bytes flow now).0 v' found
          bal)
]
