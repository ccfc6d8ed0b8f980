-- ===== src/Examples/Accounts.antt =====
-- Concrete budgets (src/account_budget.rs).
use swifttunnel_relay.Prelude.{
  ◌+◌, ◌≡◌, ◌≤◌, refl, arith, true, false, List, [], ◌∷◌, some, none, Bytes, bytes_eq, text, max,
  lookup,
}
use swifttunnel_relay.Addr.{ipv4}
use swifttunnel_relay.Budget.Flows.{Flow, flow_eq}
use swifttunnel_relay.Budget.Event.{
  Policy, Account, Budgets, new_budgets, new_state, event, maintain,
}
use swifttunnel_relay.Budget.Event.Accounts.{IsAccounted, tracked, event-IsAccounted}
use swifttunnel_relay.Budget.Event.Maintain.{maintain-IsAccounted}
use swifttunnel_relay.Budget.Event.Limits.{
  Offer, admitted, offered, event-observing, admitted_bound,
}

abbrev id : Bytes
id = 0 ∷ 0 ∷ 0 ∷ 0 ∷ 0 ∷ 0 ∷ 0 ∷ 1 ∷ []

abbrev flow : Flow
flow = record {
  sid = id;
  proto = 17;
  src = ipv4 10 0 0 2;
  dst = ipv4 128 116 1 1;
  sport = 1000;
  dport = 5000;
}

abbrev enforcing : Policy
enforcing = record { enforce = true; packets = 2; bytes = 1000; new_flows = 1 }

abbrev watching : Policy
watching = record { enforce = false; packets = 2; bytes = 1000; new_flows = 1 }

-- One account with one flow that was seen at 60.
abbrev account : Account
account = record { state = record (new_state 60) { flows = (flow, 60) ∷ [] }; last_used = 60 }

abbrev budgets : Policy → Budgets
budgets policy = record (new_budgets policy 65536 262144) {
  accounts = (text "user-7", account) ∷ [];
  slots = 1;
}

budgets-IsAccounted : IsAccounted (budgets enforcing)
unfolding tracked lookup
budgets-IsAccounted = record {
  users = (refl, tt);
  flows = ((refl, tt), tt);
  taken = refl;
  flow_room = omega arith;
  account_room = omega arith;
}

event-IsAccounted_example :
    IsAccounted (event (budgets enforcing) (text "user-8") false 40 (some flow) 61).0
event-IsAccounted_example =
    event-IsAccounted (budgets enforcing) (text "user-8") false 40 (some flow) 61
      budgets-IsAccounted

maintain-IsAccounted_example : IsAccounted (maintain (budgets enforcing) (λ user. false) 700)
maintain-IsAccounted_example =
    maintain-IsAccounted (budgets enforcing) (λ user. false) 700 budgets-IsAccounted

event-observing_example : (event (budgets watching) (text "user-7") true 4000 none 61).1 ≡ true
event-observing_example = event-observing (budgets watching) (text "user-7") true 4000 none 61 refl

abbrev offers : List Offer
offers =
    record { slots = 1; out = false; bytes = 40; flow = some flow; now = 60 }
    ∷ record { slots = 9; out = true; bytes = 40; flow = none; now = 59 }
    ∷ record { slots = 5; out = false; bytes = 40; flow = some flow; now = 60 }
    ∷ []

admitted_bound_example :
    admitted enforcing 262144 (new_state 60) offers + offered (new_state 60)
    ≤ max 2 (offered (new_state 60))
admitted_bound_example =
    admitted_bound enforcing 262144 (new_state 60) offers refl (omega arith) (omega arith)
      (0, 0, 0, 0, refl) (omega arith, (omega arith, (omega arith, tt)))
