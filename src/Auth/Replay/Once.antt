-- ===== src/Auth/Replay/Once.antt =====
-- A ticket id that is offered again (src/main.rs, `RelayTicketReplayCache::accept_once`).
use swifttunnel_relay.Prelude.{
  ℕ, ◌≤◌, ◌≡◌, true, false, List, [], ◌∷◌, some, arith, All, Bytes, bytes_eq, bytes_beq_iff, lookup,
  Distinct, lookup-insert, lookup-insert_self, lookup-retain, insert-Distinct, retain-Distinct,
  saturating_add, le→leb,
}
use swifttunnel_relay.Auth.Replay.{
  RelayTicketReplayCache, auth_clock_skew_secs, is_kept, prune_expired, accept_once,
}

abbrev pub IsValid : RelayTicketReplayCache → Type 0
IsValid c = Distinct c.seen_jti

-- A ticket id in the cache that no pruning drops before the time given.
abbrev pub Holds : RelayTicketReplayCache → Bytes → ℕ → Type 0
Holds c jti exp = lookup jti c.seen_jti ≡ some exp

prune_expired-IsValid :
    (c : RelayTicketReplayCache) (now : ℕ) → IsValid c → IsValid (prune_expired c now)
unfolding prune_expired
prune_expired-IsValid c now d =
    ground (arith, d, retain-Distinct (λ _ seen_exp. is_kept now seen_exp) c.seen_jti)

prune_expired-Holds :
    (c : RelayTicketReplayCache) (now : ℕ) (jti : Bytes) (exp : ℕ)
    → IsValid c
    → now ≤ saturating_add exp auth_clock_skew_secs
    → Holds c jti exp
    → Holds (prune_expired c now) jti exp
unfolding prune_expired
prune_expired-Holds c now jti exp d le h = ground (
  arith,
  h,
  lookup-retain (λ _ seen_exp. is_kept now seen_exp) jti c.seen_jti d,
  le→leb now (saturating_add exp auth_clock_skew_secs) le,
)

pub accept_once-IsValid :
    (c : RelayTicketReplayCache) (jti : Bytes) (exp now : ℕ)
    → IsValid c
    → IsValid (accept_once c jti exp now).0
unfolding accept_once
accept_once-IsValid c jti exp now d =
    let d' = prune_expired-IsValid c now d in
    ground (arith, d', insert-Distinct jti exp (prune_expired c now).seen_jti)

-- A call for whatever id keeps an entry that is still due.
pub accept_once-Holds :
    (c : RelayTicketReplayCache) (jti jti' : Bytes) (exp exp' now : ℕ)
    → IsValid c
    → now ≤ saturating_add exp auth_clock_skew_secs
    → Holds c jti exp
    → Holds (accept_once c jti' exp' now).0 jti exp
unfolding accept_once
accept_once-Holds c jti jti' exp exp' now d le h =
    let h' = prune_expired-Holds c now jti exp d le h in
    let m = (prune_expired c now).seen_jti in
    ground (arith, h', lookup-insert jti' jti exp' m, bytes_beq_iff jti' jti)

pub accept_once-Held :
    (c : RelayTicketReplayCache) (jti : Bytes) (exp exp' now : ℕ)
    → IsValid c
    → now ≤ saturating_add exp auth_clock_skew_secs
    → Holds c jti exp
    → (accept_once c jti exp' now).1 ≡ false
unfolding accept_once
accept_once-Held c jti exp exp' now d le h =
    let h' = prune_expired-Holds c now jti exp d le h in ground (arith, h')

pub accept_once-true :
    (c : RelayTicketReplayCache) (jti : Bytes) (exp now : ℕ)
    → (accept_once c jti exp now).1 ≡ true
    → Holds (accept_once c jti exp now).0 jti exp
unfolding accept_once
accept_once-true c jti exp now h =
    ground (arith, h, lookup-insert_self jti exp (prune_expired c now).seen_jti)

-- Calls with other tickets: an id, an expiry and a time.
abbrev pub Call : Type 0
Call = Bytes × ℕ × ℕ

pub after : RelayTicketReplayCache → List Call → RelayTicketReplayCache
after c [] = c
after c ((jti, exp, now) ∷ calls) = after (accept_once c jti exp now).0 calls

after-Holds :
    (c : RelayTicketReplayCache) (calls : List Call) (jti : Bytes) (exp : ℕ)
    → IsValid c
    → All (λ (call : Call). call.2 ≤ saturating_add exp auth_clock_skew_secs) calls
    → Holds c jti exp
    → IsValid (after c calls) × Holds (after c calls) jti exp
unfolding after
after-Holds c [] jti exp d le h = (d, h)
after-Holds c ((j, e, now) ∷ calls) jti exp d le h =
    after-Holds (accept_once c j e now).0 calls jti exp (accept_once-IsValid c j e now d) le.1
      (accept_once-Holds c jti j exp e now d le.0 h)

-- Once an id has been accepted, it is refused after any calls that are made before its ticket's
-- expiry and the clock skew have passed.
pub accept_once_unique :
    (c : RelayTicketReplayCache) (jti : Bytes) (exp exp' now later : ℕ) (calls : List Call)
    → IsValid c
    → (accept_once c jti exp now).1 ≡ true
    → All (λ (call : Call). call.2 ≤ saturating_add exp auth_clock_skew_secs) calls
    → later ≤ saturating_add exp auth_clock_skew_secs
    → (accept_once (after (accept_once c jti exp now).0 calls) jti exp' later).1 ≡ false
accept_once_unique c jti exp exp' now later calls d ok before le =
    let r =
      after-Holds (accept_once c jti exp now).0 calls jti exp (accept_once-IsValid c jti exp now d)
        before (accept_once-true c jti exp now ok) in
    accept_once-Held (after (accept_once c jti exp now).0 calls) jti exp exp' later r.0 le r.1
