-- ===== src/Auth/Ticket/NoReplay.antt =====
-- A ticket that is presented again (src/main.rs, `verify_relay_ticket_once`).
use swifttunnel_relay.Prelude.{
  ℕ, ◌≤◌, ◌<◌, ◌≡◌, ◌≢◌, ap, inl, inr, true, List, [], ◌∷◌, arith, All, Bytes, Bool-cases,
  saturating_add, u64_max,
}
use swifttunnel_relay.Auth.Mode.{RelayAuthConfig, Verified, ok, err}
use swifttunnel_relay.Auth.Replay.{RelayTicketReplayCache, auth_clock_skew_secs, accept_once}
use swifttunnel_relay.Auth.Replay.Once.{
  IsValid, Holds, accept_once-IsValid, accept_once-Holds, accept_once-Held, accept_once-true,
}
use swifttunnel_relay.Auth.Ticket.{
  VerifiedRelayTicket, Crates, verify_relay_ticket, admit_once, verify_relay_ticket_once,
}
use swifttunnel_relay.Auth.Ticket.Sound.{verify_relay_ticket-claims}

-- A verification that is asked for: the token, the session and the time.
abbrev pub Attempt : Type 0
Attempt = Bytes × Bytes × ℕ

All-le :
    (a b : ℕ) (attempts : List Attempt)
    → a ≤ b
    → All (λ (x : Attempt). x.2 ≤ a) attempts
    → All (λ (x : Attempt). x.2 ≤ b) attempts
All-le a b [] le h = tt
All-le a b (x ∷ xs) le h = (omega arith, All-le a b xs le h.1)

module _ (crates : Crates) where
  admit_once-IsValid :
      (c : RelayTicketReplayCache) (now : ℕ) (r : Verified VerifiedRelayTicket)
      → IsValid c
      → IsValid (admit_once crates c now r).0
  unfolding admit_once
  admit_once-IsValid c now (err e) v = v
  admit_once-IsValid c now (ok t) v =
      let v' = accept_once-IsValid c t.jti t.exp now v in ground (arith, v')

  admit_once-Holds :
      (c : RelayTicketReplayCache) (now : ℕ) (r : Verified VerifiedRelayTicket) (jti : Bytes)
      (exp : ℕ)
      → IsValid c
      → now ≤ saturating_add exp auth_clock_skew_secs
      → Holds c jti exp
      → Holds (admit_once crates c now r).0 jti exp
  unfolding admit_once
  admit_once-Holds c now (err e) jti exp v le h = h
  admit_once-Holds c now (ok t) jti exp v le h =
      let h' = accept_once-Holds c jti t.jti exp t.exp now v le h in ground (arith, h')

  admit_once-ok :
      (c : RelayTicketReplayCache) (now : ℕ) (r : Verified VerifiedRelayTicket)
      (t : VerifiedRelayTicket)
      → (admit_once crates c now r).1 ≡ ok t
      → (r ≡ ok t)
        × ((accept_once c t.jti t.exp now).1 ≡ true)
        × Holds (admit_once crates c now r).0 t.jti t.exp
  unfolding admit_once
  admit_once-ok c now (err e) t h = cc
  admit_once-ok c now (ok u) t h = elim (Bool-cases (accept_once c u.jti u.exp now).1) [
    | inl fresh ↦
        let held = accept_once-true c u.jti u.exp now fresh in
        let same : u ≡ t = ground (arith, h, fresh) in
        (ap ok same, ground (arith, fresh, same), ground (arith, held, fresh, same))
    | inr seen ↦ ground (arith, h, seen)
  ]

  pub after_attempts :
      RelayAuthConfig → RelayTicketReplayCache → List Attempt → RelayTicketReplayCache
  after_attempts auth c [] = c
  after_attempts auth c ((token, session_id, now) ∷ rest) =
      after_attempts auth (verify_relay_ticket_once crates token session_id auth now c).0 rest

  after_attempts-Holds :
      (auth : RelayAuthConfig) (c : RelayTicketReplayCache) (attempts : List Attempt) (jti : Bytes)
      (exp : ℕ)
      → IsValid c
      → All (λ (a : Attempt). a.2 ≤ saturating_add exp auth_clock_skew_secs) attempts
      → Holds c jti exp
      → IsValid (after_attempts auth c attempts) × Holds (after_attempts auth c attempts) jti exp
  unfolding after_attempts verify_relay_ticket_once
  after_attempts-Holds auth c [] jti exp v le h = (v, h)
  after_attempts-Holds auth c ((token, session_id, now) ∷ rest) jti exp v le h =
      let r = verify_relay_ticket crates token session_id auth now in
      after_attempts-Holds auth (admit_once crates c now r).0 rest jti exp
        (admit_once-IsValid c now r v) le.1 (admit_once-Holds c now r jti exp v le.0 h)

  -- Two uses of a token give one ticket, which the later use finds unexpired.
  same_token :
      (token session_id again : Bytes) (auth : RelayAuthConfig) (now later : ℕ)
      (t u : VerifiedRelayTicket)
      → verify_relay_ticket crates token session_id auth now ≡ ok t
      → verify_relay_ticket crates token again auth later ≡ ok u
      → (t.jti ≡ u.jti) × (t.exp ≡ u.exp) × (later < t.exp)
  same_token token session_id again auth now later t u h h' =
      let (claims, signed, good, e) =
        verify_relay_ticket-claims crates token session_id auth now t h in
      let (claims', signed', good', e') =
        verify_relay_ticket-claims crates token again auth later u h' in
      let same : claims ≡ claims' = cc in
      let due = good'.unexpired in (cc, cc, ground (arith, e, same, due))

  -- Once a token has opened a session, no later use of it is accepted, for this session or another,
  -- whatever verifications came between, as long as the clock did not run past the later use before it.
  pub verify_once_unique :
      (token session_id again : Bytes) (auth : RelayAuthConfig) (now later : ℕ)
      (c : RelayTicketReplayCache) (attempts : List Attempt) (t u : VerifiedRelayTicket)
      → IsValid c
      → (verify_relay_ticket_once crates token session_id auth now c).1 ≡ ok t
      → All (λ (a : Attempt). a.2 ≤ later) attempts
      → later ≤ u64_max
      → (verify_relay_ticket_once crates token again auth later (
          after_attempts auth
            (verify_relay_ticket_once crates token session_id auth now c).0
            attempts)).1
        ≢ ok u
  unfolding verify_relay_ticket_once
  verify_once_unique token session_id again auth now later c attempts t u v first before fits
        second =
      let r = verify_relay_ticket crates token session_id auth now in
      let r' = verify_relay_ticket crates token again auth later in
      let c' = after_attempts auth (admit_once crates c now r).0 attempts in
      let (accepted, fresh, held) = admit_once-ok c now r t first in
      let (accepted', fresh', held') = admit_once-ok c' later r' u second in
      let (jti, exp, due) =
        same_token token session_id again auth now later t u accepted accepted' in
      let le : later ≤ saturating_add t.exp auth_clock_skew_secs = omega arith in
      let kept =
        after_attempts-Holds auth (admit_once crates c now r).0 attempts t.jti t.exp
          (admit_once-IsValid c now r v) (All-le later _ attempts le before) held in
      let refused = accept_once-Held c' t.jti t.exp u.exp later kept.0 le kept.1 in
      cc (ap (λ j. (accept_once c' j u.exp later).1) jti)
