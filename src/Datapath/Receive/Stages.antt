-- ===== src/Datapath/Receive/Stages.antt =====
-- The stages of the receive loop before the frames, and the invariant of the shared state
-- (src/datapath_v2.rs).
use swifttunnel_relay.Prelude.{
  ℕ, ◌+◌, ◌<◌, ◌≡◌, ◌⊎◌, inl, inr, refl, ap, ◌∙◌, arith, Bool, true, false, not, ◌&&◌, ◌||◌, [],
  ◌∷◌, Option, some, if◌then◌else◌, leb, Option-cases, Bool-cases, length, length-append, Bytes,
  bytes_eq, ◌==◌, lookup, insert, contains_key, List,
}
use std.Path.{transport}
use swifttunnel_relay.Addr.{socket_eq}
use swifttunnel_relay.Auth.Mode.{requires_auth, Verified, ok, err, ack_status}
use swifttunnel_relay.Auth.Frame.{parse_auth_hello_token}
use swifttunnel_relay.Auth.Frame.RoundTrip.{parse_auth_hello_token-ne-none}
use swifttunnel_relay.Auth.Ticket.{VerifiedRelayTicket}
use swifttunnel_relay.RateLimit.Window.{new_session}
use swifttunnel_relay.RateLimit.Limiter
use swifttunnel_relay.RateLimit.Limiter.{max_sessions_total}
use swifttunnel_relay.Sessions.{SessionEntry, Sessions, is_authenticated}
use swifttunnel_relay.Sessions.Counts.{source_session_count, update_source_session_count_for_rebind}
use swifttunnel_relay.Packet.Reader.{read, Gives-read}
use swifttunnel_relay.Datapath.Stats.{auth, rate_limit, capacity}
use swifttunnel_relay.Datapath.Relay.{Relay, Config, Datagram}
use swifttunnel_relay.Datapath.Relay.Step.{
  ◌>>◌, pure, stop, reading, Leaves, Leaves-after, Leaves-both, Leaves-reading,
}
use swifttunnel_relay.Datapath.Relay.Control.{
  refuse, refuse_unless, continue_unless, allow_source_event, allow_pending,
}
use swifttunnel_relay.Datapath.Relay.Sound.{Holds, IsRegistry}
use swifttunnel_relay.Datapath.Relay.Registry.{
  rebind-IsRegistry, insert-IsRegistry, OwnerStays, insert-OwnersKept, insert_new-OwnersKept,
}
use swifttunnel_relay.Datapath.Relay.Keeps.{
  Keeps, Keeps-bind, Keeps-if, Leaves-if, Keeps-if_at, pure-Keeps, refuse-Keeps,
  refuse_unless-Keeps, send_frame-Keeps, allow_source_event-Keeps, allow_pending-Keeps,
}
use swifttunnel_relay.Datapath.Receive.Buffer.{IsReceived}
use swifttunnel_relay.Datapath.Receive.{
  session_id_len, auth_ack_frame_type, auth_ack_reauth_required, max_sessions_per_src_ip,
  count_datagram, is_auth_hello, send_ack, read_ticket, accept_ticket, verify_hello, send_if,
  is_elsewhere, lacks_authority, rebind, challenge, require_authority, admit_session, renew,
  new_entry, touch_session,
}

module _ (before : Sessions) (held : List ℕ) where
  pub count_datagram-Keeps : (d : Datagram) → Keeps before held (count_datagram d)
  unfolding count_datagram
  count_datagram-Keeps d r h = h

  pub is_auth_hello-Keeps : (d : Datagram) → IsReceived d → Keeps before held (is_auth_hello d)
  unfolding is_auth_hello
  is_auth_hello-Keeps d rec =
      Keeps-if before held (leb (session_id_len + 3) d.len) _ _
        (Keeps-bind before held (reading (read d.buf session_id_len)) _
          (λ r h.
            Leaves-reading _ _ _ (read d.buf session_id_len) r
              (Gives-read d.buf session_id_len (omega (arith, rec.size))) h (λ _ _. h))
          (λ _ r h. h))
        (λ r h. h)

  module _ (cfg : Config) (d : Datagram) (session_id : Bytes)
      (id_len : length session_id ≡ session_id_len) (rec : IsReceived d) where
    pub send_ack-Keeps : (status : ℕ) → Keeps before held (send_ack cfg d session_id status)
    send_ack-Keeps status =
        send_frame-Keeps before held d.client_addr session_id _ d.later
          (omega (arith, id_len, length-append session_id (auth_ack_frame_type ∷ status ∷ [])))

    -- an ack and the end of the handler
    pub ack_stop-Keeps :
        (A : Type 0) (status : ℕ)
        → Keeps before held (send_ack cfg d session_id status >> stop {A = A})
    ack_stop-Keeps A status =
        Keeps-bind before held (send_ack cfg d session_id status) _ (send_ack-Keeps status)
          (λ _ r h. h)

    read_ticket-Keeps : Keeps before held (read_ticket cfg d session_id)
    unfolding read_ticket
    read_ticket-Keeps r h = elim (Option-cases (parse_auth_hello_token d.buf d.len)) [
      | inl e ↦
          absurd
            (parse_auth_hello_token-ne-none d.buf d.len (omega (arith, rec.size, rec.inside)) e)
      | inr (err error, e) ↦ rw (read_ticket, e) h
      | inr (ok token, e) ↦ rw (read_ticket, e) h
    ]

    accept_ticket-Keeps :
        (result : Verified VerifiedRelayTicket)
        → Keeps before held (accept_ticket cfg d session_id result)
    accept_ticket-Keeps (ok ticket) r h = h
    accept_ticket-Keeps (err error) r h = ack_stop-Keeps _ (ack_status error) r h

    pub verify_hello-Keeps :
        (is_hello : Bool) → Keeps before held (verify_hello cfg d session_id is_hello)
    unfolding verify_hello
    verify_hello-Keeps is_hello =
        Keeps-if before held (requires_auth cfg.auth.mode && is_hello) _ _
          (Keeps-bind before held (allow_pending cfg d) _ (allow_pending-Keeps before held cfg d)
            λ allowed.
              Keeps-bind before held (refuse_unless allowed rate_limit) _
                (refuse_unless-Keeps before held allowed rate_limit)
                λ _.
                  Keeps-bind before held (read_ticket cfg d session_id) _ read_ticket-Keeps
                    accept_ticket-Keeps)
          (λ r h. h)

    send_if-Keeps :
        (allowed : Bool) (status : ℕ) → Keeps before held (send_if cfg d session_id allowed status)
    send_if-Keeps true status r h = send_ack-Keeps status r h
    send_if-Keeps false status r h = h

    pub challenge-Keeps :
        (ticket : Option VerifiedRelayTicket)
        → Keeps before held (challenge cfg d session_id ticket)
    unfolding challenge
    challenge-Keeps ticket r h =
        Keeps-if_at before held (is_elsewhere cfg d session_id ticket r.sessions) _ (pure tt) r
          (Keeps-bind before held (allow_pending cfg d)
            (λ allowed. send_if cfg d session_id allowed auth_ack_reauth_required)
            (allow_pending-Keeps before held cfg d)
            (λ allowed. send_if-Keeps allowed auth_ack_reauth_required))
          (pure-Keeps before held tt) h

    pub require_authority-Keeps :
        (ticket : Option VerifiedRelayTicket)
        → Keeps before held (require_authority cfg d session_id ticket)
    unfolding require_authority
    require_authority-Keeps ticket r h =
        Keeps-if_at before held (lacks_authority cfg d session_id ticket r.sessions) (refuse auth)
          (pure tt) r (refuse-Keeps before held auth) (pure-Keeps before held tt) h

    -- the session is there, or there is room for it
    abbrev pub Admitted : Relay → Type 0
    Admitted r =
        (contains_key session_id r.sessions ≡ true) ⊎ (length r.sessions < max_sessions_total)

    room_left :
        (s : Relay)
        → length s.sessions < max_sessions_total
        → Leaves
            (λ _ r'. length r'.sessions < max_sessions_total)
            (λ _. Unit)
            (allow_source_event d.client_addr new_session d.now s)
    unfolding allow_source_event
    room_left s l =
        Leaves-if before held (Limiter.allow s.limiter d.client_addr.ip new_session d.now).1 _ _
          (λ _ r'. length r'.sessions < max_sessions_total) (λ _. Unit) (λ _. l) (λ _. l)

    continue-Admitted :
        (allowed : Bool) (r : Relay)
        → Holds before held r
        → length r.sessions < max_sessions_total
        → Leaves
            (λ _ r'. Holds before held r' × Admitted r')
            (λ r'. Holds before held r')
            (continue_unless allowed r)
    continue-Admitted true r h l = (h, inr l)
    continue-Admitted false r h l = h

    pub admit_session-Admitted :
        (r : Relay)
        → Holds before held r
        → Leaves
            (λ _ r'. Holds before held r' × Admitted r')
            (λ r'. Holds before held r')
            (admit_session cfg d session_id r)
    unfolding admit_session
    admit_session-Admitted r h =
        Leaves-if before held (contains_key session_id r.sessions) _ _
          (λ _ r'. Holds before held r' × Admitted r') (λ r'. Holds before held r')
          (λ here. (h, inl here))
          λ _.
            Leaves-if before held (leb max_sessions_total (length r.sessions)) _ _
              (λ _ r'. Holds before held r' × Admitted r') (λ r'. Holds before held r')
              (λ _. refuse-Keeps before held capacity r h)
              λ room.
                Leaves-if before held
                  (leb max_sessions_per_src_ip (source_session_count r.counts d.client_addr.ip)) _ _
                  (λ _ r'. Holds before held r' × Admitted r') (λ r'. Holds before held r')
                  (λ _. refuse-Keeps before held capacity r h)
                  λ _.
                    Leaves-after
                      (λ _ r'. Holds before held r' × (length r'.sessions < max_sessions_total)) _ _
                      (allow_source_event d.client_addr new_session d.now r) continue_unless
                      (Leaves-both (λ _ r'. Holds before held r')
                        (λ _ r'. length r'.sessions < max_sessions_total)
                        (λ r'. Holds before held r') (λ _. Unit)
                        (allow_source_event d.client_addr new_session d.now r)
                        (allow_source_event-Keeps before held d.client_addr new_session d.now r h)
                        (room_left r (ground (arith, room))))
                      (λ allowed r' (h', room'). continue-Admitted allowed r' h' room')

    Holds-if :
        (b : Bool) (r s : Relay)
        → Holds before held r
        → Holds before held s
        → Holds before held (if b then r else s)
    Holds-if true r s h k = h
    Holds-if false r s h k = k

    pub rebind-Holds :
        (session session' : SessionEntry) (r : Relay)
        → lookup session_id r.sessions ≡ some session
        → session'.client_addr ≡ d.client_addr
        → OwnerStays session session'
        → Holds before held r
        → Holds before held (rebind cfg d session_id session session' r)
    rebind-Holds session session' r e at stays (own, (reg, lim, bud, tot, buf)) = (
      insert-OwnersKept before r.sessions session_id session session' e stays own,
      (
        transport
            (ap
              (λ a.
                IsRegistry (insert session_id session' r.sessions)
                  (update_source_session_count_for_rebind r.counts session.client_addr.ip a.ip))
              at)
            (rebind-IsRegistry r.sessions r.counts session_id session session' e reg),
        lim,
        bud,
        tot,
        buf,
      ),
    )

    -- An owner stays where neither the user nor the state changes.
    unchanged-OwnerStays :
        (session session' : SessionEntry)
        → session'.auth_state ≡ session.auth_state
        → session'.user_id ≡ session.user_id
        → OwnerStays session session'
    unchanged-OwnerStays session session' s u =
        elim (Bool-cases (is_authenticated session.auth_state)) [
          | inl e ↦ inr (ap is_authenticated s ∙ e, u)
          | inr e ↦ inl e
        ]

    -- A session that comes, or stays with its owner, where it is admitted.
    pub touch_session-Leaves :
        (is_hello : Bool) (r : Relay)
        → Holds before held r
        → Admitted r
        → Leaves
            (λ _ r'. Holds before held r')
            (λ r'. Holds before held r')
            (touch_session cfg d session_id is_hello r)
    unfolding touch_session renew new_entry
    touch_session-Leaves is_hello r (own, (reg, lim, bud, tot, buf)) admitted =
        elim (Option-cases (lookup session_id r.sessions)) [
          | inl e ↦
              rw (touch_session, e)
                (
                  insert_new-OwnersKept before r.sessions session_id (new_entry cfg d session_id) e
                      own,
                  (
                    insert-IsRegistry r.sessions r.counts session_id (new_entry cfg d session_id) e
                        (ground (arith, e, admitted)) reg,
                    lim,
                    bud,
                    tot,
                    buf,
                  ),
                )
          | inr (session, e) ↦
              rw (touch_session, e)
                (Holds-if
                  (not (requires_auth cfg.auth.mode)
                    || (not is_hello && session.client_addr == d.client_addr))
                  _ r
                  (rebind-Holds session (renew cfg d session_id session) r e refl
                    (unchanged-OwnerStays session (renew cfg d session_id session) refl refl)
                    (own, (reg, lim, bud, tot, buf)))
                  (own, (reg, lim, bud, tot, buf)))
        ]
