-- ===== src/Datapath/Receive/Identify.antt =====
-- Who sends a datagram: the checks before a session is touched (src/datapath_v2.rs, the receive loop).
use swifttunnel_relay.Prelude.{
  ◌+◌, leb, eqb, ℕ, ◌≡◌, ◌≤◌, ◌⊎◌, get_elem?, arith, refl, Bool, true, false, ◌&&◌, Option, none,
  some, inl, inr, Option-cases, Bool-cases, Bytes, bytes_eq,
}
use swifttunnel_relay.Auth.Mode.{requires_auth, Verified, ok, err, ack_status}
use swifttunnel_relay.Auth.Frame.{parse_auth_hello_token}
use swifttunnel_relay.Auth.Replay.{RelayTicketReplayCache, accept_once}
use swifttunnel_relay.Auth.Ticket.{
  VerifiedRelayTicket, verify_relay_ticket, verify_relay_ticket_once, admit_once,
}
use swifttunnel_relay.Packet.Reader.{read, got}
use swifttunnel_relay.Datapath.Stats.{rate_limit}
use swifttunnel_relay.Datapath.Relay.{Relay, Config, Datagram}
use swifttunnel_relay.Datapath.Relay.Step.{stop, reading, pure}
use swifttunnel_relay.Datapath.Relay.Control.{refuse_unless, allow_pending}
use swifttunnel_relay.Datapath.Relay.Quiet.{
  Allows, Allows-after, Allows-if, Allows-reading, View, At, Quiet, Quiet-bind, Quiet-if,
  pure-Quiet, refuse_unless-Quiet, send_frame-Quiet, allow_pending-Quiet,
}
use swifttunnel_relay.Datapath.Receive.{
  session_id_len, is_auth_hello, auth_hello_frame_type, auth_ack_reauth_required, send_ack,
  read_ticket, accept_ticket, verify_hello, send_if, is_elsewhere, challenge, lacks_authority,
  require_authority,
}

pub is_auth_hello-Quiet : (P : View) (d : Datagram) → Quiet P (is_auth_hello d)
unfolding is_auth_hello
is_auth_hello-Quiet P d =
    Quiet-if P (leb (session_id_len + 3) d.len) _ _
      (Quiet-bind P (reading (read d.buf session_id_len)) _
        (λ r h. Allows-reading _ _ (read d.buf session_id_len) r h (λ _ _. h))
        (λ b. pure-Quiet P (eqb b auth_hello_frame_type)))
      (pure-Quiet P false)

-- The datagram is a hello frame.
abbrev pub IsHello : Datagram → Type 0
IsHello d =
    (session_id_len + 3 ≤ d.len) × (get_elem? d.buf session_id_len ≡ some auth_hello_frame_type)

-- what the test for a hello tells
abbrev pub Tells : Datagram → Bool → Type 0
Tells d is_hello = (is_hello ≡ true) ⊎ (IsHello d → ⊥)

frame_type-Tells : (d : Datagram) (b : ℕ) → read d.buf session_id_len ≡ got b → Tells d (eqb b 0xA1)
unfolding read
frame_type-Tells d b e = elim (Bool-cases (eqb b 0xA1)) [
  | inl same ↦ inl same
  | inr other ↦ inr (λ (long, at). ground (arith, other, at, e))
]

pub is_auth_hello-Tells :
    (P : View) (d : Datagram) (r : Relay)
    → At P r
    → Allows (λ is_hello r'. Tells d is_hello × At P r') (λ r'. At P r') (is_auth_hello d r)
unfolding is_auth_hello
is_auth_hello-Tells P d r h = elim (Bool-cases (leb (session_id_len + 3) d.len)) [
  | inl long ↦
      rw (is_auth_hello, long)
        (Allows-after (λ b r'. (read d.buf session_id_len ≡ got b) × At P r') _ _
          (reading (read d.buf session_id_len) r) (λ b. pure (eqb b auth_hello_frame_type))
          (Allows-reading _ _ (read d.buf session_id_len) r h (λ b e. (e, h)))
          (λ b r' (e, h'). (frame_type-Tells d b e, h')))
  | inr short ↦ rw (is_auth_hello, short) (inr (λ (long, at). ground (arith, short, long)), h)
]

module _ (cfg : Config) (d : Datagram) (session_id : Bytes) where
  -- The datagram carries a ticket of this session that is valid at this time.
  abbrev pub Evidence : VerifiedRelayTicket → Type 0
  Evidence ticket =
      (token : Bytes) × (parse_auth_hello_token d.buf d.len ≡ some (ok token))
      × (verify_relay_ticket cfg.crates token session_id cfg.auth d.now_unix ≡ ok ticket)

  abbrev pub IsEvident : Option VerifiedRelayTicket → Type 0
  IsEvident none = Unit
  IsEvident (some ticket) = Evidence ticket

  abbrev Vouched : Verified VerifiedRelayTicket → Type 0
  Vouched (ok ticket) = Evidence ticket
  Vouched (err e) = Unit

  admitted_lem :
      (token : Bytes)
      → parse_auth_hello_token d.buf d.len ≡ some (ok token)
      → (cache : RelayTicketReplayCache) (result : Verified VerifiedRelayTicket)
      → verify_relay_ticket cfg.crates token session_id cfg.auth d.now_unix ≡ result
      → Vouched (admit_once cfg.crates cache d.now_unix result).1
  unfolding admit_once
  admitted_lem token e cache (err error) v = tt
  admitted_lem token e cache (ok ticket) v =
      elim (Bool-cases (accept_once cache ticket.jti ticket.exp d.now_unix).1) [
        | inl fresh ↦ rw fresh (token, e, v)
        | inr seen ↦ rw seen tt
      ]

  module _ (P : View) where
    pub send_ack-Quiet : (status : ℕ) → Quiet P (send_ack cfg d session_id status)
    send_ack-Quiet status = send_frame-Quiet P d.client_addr session_id _ d.later

    read_ticket-Allows :
        (r : Relay)
        → At P r
        → Allows
            (λ result r'. Vouched result × At P r')
            (λ r'. At P r')
            (read_ticket cfg d session_id r)
    unfolding read_ticket verify_relay_ticket_once
    read_ticket-Allows r h = elim (Option-cases (parse_auth_hello_token d.buf d.len)) [
      | inl e ↦ rw (read_ticket, e) tt
      | inr (err error, e) ↦ rw (read_ticket, e) (tt, h)
      | inr (ok token, e) ↦
          rw (read_ticket, e)
            (
              admitted_lem token e r.replay
                  (verify_relay_ticket cfg.crates token session_id cfg.auth d.now_unix) refl,
              h,
            )
    ]

    accept_ticket-Allows :
        (result : Verified VerifiedRelayTicket) (r : Relay)
        → Vouched result
        → At P r
        → Allows
            (λ ticket r'. IsEvident ticket × At P r')
            (λ r'. At P r')
            (accept_ticket cfg d session_id result r)
    accept_ticket-Allows (ok ticket) r v h = (v, h)
    accept_ticket-Allows (err e) r v h =
        Allows-after (λ _ r'. At P r') _ _ (send_ack cfg d session_id (ack_status e) r) (λ _. stop)
          (send_ack-Quiet (ack_status e) r h) (λ _ r' h'. h')

    -- A ticket that comes out of the hello is a valid one.
    pub verify_hello-Allows :
        (is_hello : Bool) (r : Relay)
        → At P r
        → Allows
            (λ ticket r'. IsEvident ticket × At P r')
            (λ r'. At P r')
            (verify_hello cfg d session_id is_hello r)
    unfolding verify_hello
    verify_hello-Allows is_hello r h = elim (Bool-cases (requires_auth cfg.auth.mode && is_hello)) [
      | inr e ↦ rw (verify_hello, e) (tt, h)
      | inl e ↦
          rw (verify_hello, e)
            (Allows-after (λ _ r'. At P r') _ _ (allow_pending cfg d r) _
              (allow_pending-Quiet P cfg d r h)
              λ allowed r' h'.
                Allows-after (λ _ r''. At P r'') _ _ (refuse_unless allowed rate_limit r') _
                  (refuse_unless-Quiet P allowed rate_limit r' h')
                  λ _ s k.
                    Allows-after (λ result s'. Vouched result × At P s') _ _
                      (read_ticket cfg d session_id s) (accept_ticket cfg d session_id)
                      (read_ticket-Allows s k)
                      (λ result s' (v, k'). accept_ticket-Allows result s' v k'))
    ]

    send_if-Quiet :
        (allowed : Bool) (status : ℕ) → Quiet P (send_if cfg d session_id allowed status)
    send_if-Quiet true status r h = send_ack-Quiet status r h
    send_if-Quiet false status r h = h

    pub challenge-Quiet :
        (ticket : Option VerifiedRelayTicket) → Quiet P (challenge cfg d session_id ticket)
    unfolding challenge
    challenge-Quiet ticket r h =
        Allows-if (is_elsewhere cfg d session_id ticket r.sessions) _ _ (λ _ r'. At P r')
          (λ r'. At P r')
          (λ _.
            Quiet-bind P (allow_pending cfg d)
              (λ allowed. send_if cfg d session_id allowed auth_ack_reauth_required)
              (allow_pending-Quiet P cfg d)
              (λ allowed. send_if-Quiet allowed auth_ack_reauth_required) r h)
          (λ _. h)

    pub require_authority-Allows :
        (ticket : Option VerifiedRelayTicket) (r : Relay)
        → At P r
        → Allows
            (λ _ r'. (lacks_authority cfg d session_id ticket r'.sessions ≡ false) × At P r')
            (λ r'. At P r')
            (require_authority cfg d session_id ticket r)
    unfolding require_authority
    require_authority-Allows ticket r h =
        Allows-if (lacks_authority cfg d session_id ticket r.sessions) _ _
          (λ _ r'. (lacks_authority cfg d session_id ticket r'.sessions ≡ false) × At P r')
          (λ r'. At P r') (λ _. h) (λ e. (e, h))
