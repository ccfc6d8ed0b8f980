-- ===== src/Budget/Event/Charge.antt =====
-- One charge and the invariant of the budgets (src/account_budget.rs, `allow`).
use swifttunnel_relay.Prelude.{
  ℕ, ◌≢◌, refl, Bool, true, false, none, some, inl, inr, Option-cases, Bool-cases, if◌then◌else◌,
  length, Bytes, bytes_eq, lookup,
}
use swifttunnel_relay.Sessions.{Sessions, is_authenticated}
use swifttunnel_relay.Budget.Flows
use swifttunnel_relay.Budget.Flows.{flow_parse-ne-panicked}
use swifttunnel_relay.Budget.Event.{Budgets, allow, event}
use swifttunnel_relay.Budget.Event.Accounts.{IsAccounted, event-IsAccounted}
use swifttunnel_relay.Packet.Reader.{Parse, got, rejected, panicked}

-- What the budgets are after a charge.
abbrev pub Charged : Parse (Budgets × Bool) → Type 0
Charged panicked = ⊥
Charged rejected = ⊥
Charged (got (budgets, ok)) = IsAccounted budgets

pub allow-Charged :
    (b : Budgets) (sessions : Sessions) (sid : Bytes) (out : Bool) (packet : Bytes) (now : ℕ)
    → IsAccounted b
    → Charged (allow b sessions sid out packet now)
unfolding allow
allow-Charged b sessions sid out packet now v = elim (Option-cases (lookup sid sessions)) [
  | inl e ↦ rw (allow, e) v
  | inr (session, e) ↦ elim (Bool-cases (is_authenticated session.auth_state)) [
    | inr free ↦ rw (allow, e, free) v
    | inl owned ↦
        rw (allow, e, owned)
          (by_flow session.user_id (if out then rejected else Flows.parse sid packet)
            (no_panic out))
  ]
]
  where
    no_panic : (o : Bool) → (if o then rejected else Flows.parse sid packet) ≢ panicked
    no_panic true e = cc
    no_panic false e = flow_parse-ne-panicked sid packet e

    by_flow :
        (user : Bytes) (flow : Parse Flows.Flow)
        → flow ≢ panicked
        → Charged (elim flow [
          | got key ↦ got (event b user out (length packet) (some key) now)
          | rejected ↦ got (event b user out (length packet) none now)
          | panicked ↦ panicked
        ])
    by_flow user (got key) n = event-IsAccounted b user out (length packet) (some key) now v
    by_flow user rejected n = event-IsAccounted b user out (length packet) none now v
    by_flow user panicked n = absurd (n refl)
