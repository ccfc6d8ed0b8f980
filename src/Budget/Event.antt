-- ===== src/Budget/Event.antt =====
-- src/account_budget.rs, `Budgets`. A call holds the account's lock, so it is one step here; times
-- are seconds. The counters of type u64 wrap at 2^64 where the code adds with `+=` or `fetch_add`.
pub mod Limits
pub mod Slots
pub mod Accounts
pub mod Maintain
pub mod Charge
use swifttunnel_relay.Prelude.{
  ℕ, suc, ◌+◌, ◌-◌, ◌/◌, ◌%◌, Bool, true, false, not, ◌&&◌, ◌||◌, Option, none, some, List, [], ◌∷◌,
  ◌++◌, if◌then◌else◌, ltb, leb, eqb, is_some_and, max, length, get_or, set, drop, Bytes, bytes_eq,
  Assoc, lookup, insert, remove, retain, contains_key, u64_max, saturating_add,
}
use swifttunnel_relay.Budget.Flows.{Flow, flow_eq}
use swifttunnel_relay.Budget.Flows
use swifttunnel_relay.Packet.Reader.{Parse, got, rejected, panicked}
use swifttunnel_relay.Sessions.{Sessions, is_authenticated}

abbrev pub flow_idle_seconds : ℕ
flow_idle_seconds = 120

abbrev pub account_idle_seconds : ℕ
account_idle_seconds = 600

pub record Policy : Type 0 where
  pub enforce : Bool
  pub packets : ℕ
  pub bytes : ℕ
  pub new_flows : ℕ

pub record State : Type 0 where
  pub second : ℕ
  pub minute : ℕ
  pub counts : List ℕ
  pub totals : List ℕ
  pub peaks : List ℕ
  pub samples : List (List ℕ)
  pub new_flows : ℕ
  pub total_new_flows : ℕ
  pub peak_flows : ℕ
  pub breaches : ℕ
  pub drops : ℕ
  pub untracked : ℕ
  pub flows : Assoc Flow ℕ

-- `[0; 4]`
abbrev pub zeros : List ℕ
zeros = 0 ∷ 0 ∷ 0 ∷ 0 ∷ []

abbrev pub new_state : ℕ → State
new_state now = record {
  second = now;
  minute = now / 60;
  counts = zeros;
  totals = zeros;
  peaks = zeros;
  samples = [];
  new_flows = 0;
  total_new_flows = 0;
  peak_flows = 0;
  breaches = 0;
  drops = 0;
  untracked = 0;
  flows = [];
}

-- `slots` is the counter of `Budgets` that all accounts share
pub record Account : Type 0 where
  pub state : State
  pub last_used : ℕ

abbrev pub new_account : ℕ → Account
new_account now = record { state = new_state now; last_used = now }

pub record Budgets : Type 0 where
  pub policy : Policy
  pub accounts : Assoc Bytes Account
  pub slots : ℕ
  pub capacity_packets : ℕ
  pub capacity_drops : ℕ
  pub account_limit : ℕ
  pub flow_limit : ℕ

abbrev pub new_budgets : Policy → ℕ → ℕ → Budgets
new_budgets policy account_limit flow_limit = record {
  policy = policy;
  accounts = [];
  slots = 0;
  capacity_packets = 0;
  capacity_drops = 0;
  account_limit = account_limit;
  flow_limit = flow_limit;
}

-- `n += 1` on u64
abbrev pub wrapping_inc : ℕ → ℕ
wrapping_inc n = (n + 1) % suc u64_max

-- `Budgets::account`: the account, inserted when it is new and there is room
unfoldable pub account : Budgets → Bytes → ℕ → Option (Budgets × Account)
account b user now = elim (lookup user b.accounts) [
  | some a ↦ some (b, a)
  | none ↦
      if leb b.account_limit (length b.accounts)
      then none
      else some (record b { accounts = insert user (new_account now) b.accounts }, new_account now)
]

-- the second's counters become a sample when a new second begins
unfoldable pub roll_second : State → ℕ → State
roll_second s now = if eqb s.second now then s else record s {
  samples = (if eqb (length s.samples) 60 then drop 1 s.samples else s.samples) ++ (s.counts ∷ []);
  counts = zeros;
  second = now;
}

unfoldable pub roll_minute : State → ℕ → State
roll_minute s now =
    if eqb s.minute (now / 60) then s else record s { new_flows = 0; minute = now / 60 }

-- a flow that was idle for too long gives its slot back
unfoldable pub expire_flow : ℕ → State → Option Flow → ℕ → ℕ × State
expire_flow slots s none now = (slots, s)
expire_flow slots s (some key) now =
    if is_some_and (lookup key s.flows) (λ seen. leb flow_idle_seconds (now - seen))
    then (slots - 1, record s { flows = remove key s.flows })
    else (slots, s)

-- the body of the loop over `[(offset, 1), (offset + 1, bytes)]`
unfoldable pub count_at : State → ℕ → ℕ → State
count_at s index amount =
    let counts = set s.counts index (saturating_add (get_or s.counts index 0) amount) in
    record s {
      counts = counts;
      totals = set s.totals index (saturating_add (get_or s.totals index 0) amount);
      peaks = set s.peaks index (max (get_or s.peaks index 0) (get_or counts index 0));
    }

unfoldable pub count_packet : State → Bool → ℕ → State
count_packet s out bytes =
    let offset = if out then 2 else 0 in count_at (count_at s offset 1) (offset + 1) bytes

unfoldable pub is_new_flow : State → Option Flow → Bool
is_new_flow s flow = is_some_and flow (λ key. not (contains_key key s.flows))

unfoldable pub exceeded : Policy → State → Bool → Bool
exceeded p s new_flow =
    (ltb 0 p.packets && ltb p.packets (saturating_add (get_or s.counts 0 0) (get_or s.counts 2 0)))
    || ((ltb 0 p.bytes && ltb p.bytes (saturating_add (get_or s.counts 1 0) (get_or s.counts 3 0)))
        || (new_flow && (ltb 0 p.new_flows && leb p.new_flows s.new_flows)))

abbrev pub see_flow : State → Flow → ℕ → State
see_flow s key now =
    let flows = insert key now s.flows in
    record s { flows = flows; peak_flows = max s.peak_flows (length flows) }

-- the last part of `event`: a flow is tracked when a slot is free
unfoldable pub track : Policy → ℕ → ℕ → State → Option Flow → Bool → ℕ → ℕ × (State × Bool)
track p flow_limit slots s none new_flow now = (slots, (s, true))
track p flow_limit slots s (some key) new_flow now =
    if not new_flow
    then (slots, (see_flow s key now, true))
    else if ltb slots flow_limit
    then (
      slots + 1,
      (
        see_flow
            (record s {
              new_flows = wrapping_inc s.new_flows;
              total_new_flows = wrapping_inc s.total_new_flows;
            })
            key now,
        true,
      ),
    )
    else (
      slots,
      (
        record s {
          untracked = wrapping_inc s.untracked;
          drops = if p.enforce then wrapping_inc s.drops else s.drops;
        },
        not p.enforce,
      ),
    )

-- `if exceeded { … }`, then the rest
unfoldable pub decide : Policy → ℕ → ℕ → State → Option Flow → ℕ → ℕ × (State × Bool)
decide p flow_limit slots s flow now =
    let new_flow = is_new_flow s flow in
    let breached = record s { breaches = wrapping_inc s.breaches } in
    if exceeded p s new_flow
    then (if p.enforce
        then (slots, (record breached { drops = wrapping_inc s.drops }, false))
        else track p flow_limit slots breached flow new_flow now)
    else track p flow_limit slots s flow new_flow now

-- `event` under the account's lock
unfoldable pub account_event :
    Policy → ℕ → ℕ → State → Bool → ℕ → Option Flow → ℕ → ℕ × (State × Bool)
account_event p flow_limit slots s out bytes flow now =
    let now = max now s.second in
    let (slots, s) = expire_flow slots (roll_minute (roll_second s now) now) flow now in
    decide p flow_limit slots (count_packet s out bytes) flow now

unfoldable pub event : Budgets → Bytes → Bool → ℕ → Option Flow → ℕ → Budgets × Bool
event b user out bytes flow now = elim (account b user now) [
  | none ↦ (
    record b {
      capacity_packets = wrapping_inc b.capacity_packets;
      capacity_drops = if b.policy.enforce then wrapping_inc b.capacity_drops else b.capacity_drops;
    },
    not b.policy.enforce,
  )
  | some (b, a) ↦
      let (slots, (s, ok)) =
        account_event b.policy b.flow_limit b.slots a.state out bytes flow now in
      (
        record b {
          slots = slots;
          accounts = insert user (record { state = s; last_used = max a.last_used now }) b.accounts;
        },
        ok,
      )
]

-- the first pass of `maintain`: an idle account that no call holds is dropped, with its slots
unfoldable pub drop_idle : (Bytes → Bool) → ℕ → ℕ → Assoc Bytes Account → ℕ × Assoc Bytes Account
drop_idle held now slots [] = (slots, [])
drop_idle held now slots ((user, a) ∷ rest) =
    let keep = ltb (now - a.last_used) account_idle_seconds || held user in
    let (slots', rest') =
      drop_idle held now (if keep then slots else slots - length a.state.flows) rest in
    (slots', if keep then (user, a) ∷ rest' else rest')

-- the second pass: idle flows give their slots back
unfoldable pub prune_flows : ℕ → ℕ → Assoc Bytes Account → ℕ × Assoc Bytes Account
prune_flows now slots [] = (slots, [])
prune_flows now slots ((user, a) ∷ rest) =
    let flows = retain (λ _ seen. ltb (now - seen) flow_idle_seconds) a.state.flows in
    let (slots', rest') = prune_flows now (slots - (length a.state.flows - length flows)) rest in
    (slots', (user, record a { state = record (a.state) { flows = flows } }) ∷ rest')

-- `held` tells which accounts a running call holds: `Arc::strong_count(account) > 1`
unfoldable pub maintain : Budgets → (Bytes → Bool) → ℕ → Budgets
maintain b held now =
    let (slots, accounts) = drop_idle held now b.slots b.accounts in
    let (slots, accounts) = prune_flows now slots accounts in
    record b { slots = slots; accounts = accounts }

-- the module's `allow`
unfoldable pub allow : Budgets → Sessions → Bytes → Bool → Bytes → ℕ → Parse (Budgets × Bool)
allow b sessions sid out packet now = elim (lookup sid sessions) [
  | none ↦ got (b, false)
  | some session ↦
      if not (is_authenticated session.auth_state)
      then got (b, true)
      else (let flow = if out then rejected else Flows.parse sid packet in
          elim flow [
            | got key ↦ got (event b session.user_id out (length packet) (some key) now)
            | rejected ↦ got (event b session.user_id out (length packet) none now)
            | panicked ↦ panicked
          ])
]
