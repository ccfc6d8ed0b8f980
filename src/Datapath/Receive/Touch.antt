-- ===== src/Datapath/Receive/Touch.antt =====
-- The stages of the receive loop and the sessions (src/datapath_v2.rs, the receive loop).
use swifttunnel_relay.Prelude.{
  ℕ, ◌≡◌, Bool, true, false, not, ◌&&◌, ◌||◌, List, Option, none, some, inl, inr, Option-cases,
  Bool-cases, if◌then◌else◌, leb, length, Bytes, bytes_eq, ◌==◌, lookup, insert, contains_key,
}
use swifttunnel_relay.Addr.{socket_eq}
use swifttunnel_relay.Auth.Mode.{requires_auth, bad_format, ack_status}
use swifttunnel_relay.Auth.Ticket.{VerifiedRelayTicket}
use swifttunnel_relay.RateLimit.Window.{SourceLimitKind, new_session, packet}
use swifttunnel_relay.RateLimit.Limiter
use swifttunnel_relay.RateLimit.Limiter.{max_sessions_total}
use swifttunnel_relay.Sessions.{SessionEntry, Sessions}
use swifttunnel_relay.Sessions.Counts.{source_session_count}
use swifttunnel_relay.Datapath.Relay.{
  Relay, Config, Datagram, Channel, TxPacket, ShardMsg, InboundTunPacket, ResolveTask,
}
use swifttunnel_relay.Datapath.Relay.Step.{◌>>=◌, ◌>>◌, stop, Run}
use swifttunnel_relay.Datapath.Relay.Control.{allow_source_event, continue_unless}
use swifttunnel_relay.Datapath.Relay.Quiet.{
  Allows, Allows-after, Allows-then, Allows-if, View, At, Quiet, Quiet-bind, continue_unless-Quiet,
}
use swifttunnel_relay.Datapath.Receive.{
  auth_ack_ok, auth_ack_auth_disabled, auth_ack_owner_mismatch, max_sessions_per_src_ip, send_ack,
  admit_session, renew, new_entry, touch_session, count_ingress, bind_entry, conflicts,
  bind_session, take_over, take_ticket, handle_hello, is_off,
}
use swifttunnel_relay.Datapath.Receive.Identify.{send_ack-Quiet, IsEvident, Evidence}

-- A predicate on the sessions, and one on what is delivered: packets to the clients, to the shards and
-- to the TUN device, and lookups.
abbrev pub Deliveries : Type 1
Deliveries =
    Channel TxPacket
    → List (Channel ShardMsg)
    → Option (Channel InboundTunPacket)
    → List ResolveTask
    → Type 0

abbrev pub Both : (Sessions → Type 0) → Deliveries → View
Both S F sessions counts limiter budgets policy traffic tx_data shards tun resolves =
    S sessions × F tx_data shards tun resolves

-- The sessions keep the predicate where one comes, is renewed, or is bound to a valid ticket's user.
pub record IsStable (cfg : Config) (d : Datagram) (session_id : Bytes) (S : Sessions → Type 0)
    : Type 0 where
  pub comes :
      (s : Sessions)
      → lookup session_id s ≡ none
      → S s
      → S (insert session_id (new_entry cfg d session_id) s)
  pub renewed :
      (s : Sessions) (session : SessionEntry)
      → lookup session_id s ≡ some session
      → S s
      → S (insert session_id (renew cfg d session_id session) s)
  pub bound :
      (s : Sessions) (session : SessionEntry) (ticket : VerifiedRelayTicket)
      → lookup session_id s ≡ some session
      → Evidence cfg d session_id ticket
      → S s
      → S (insert session_id (bind_entry cfg d session_id ticket session) s)

module _ (cfg : Config) (d : Datagram) (session_id : Bytes) (S : Sessions → Type 0) (F : Deliveries)
    (stable : IsStable cfg d session_id S) where
  allow_source_event-Quiet :
      (kind : SourceLimitKind) → Quiet (Both S F) (allow_source_event d.client_addr kind d.now)
  unfolding allow_source_event
  allow_source_event-Quiet kind r h =
      Allows-if (Limiter.allow r.limiter d.client_addr.ip kind d.now).1 _ _
        (λ _ r'. At (Both S F) r') (λ r'. At (Both S F) r') (λ _. h) (λ _. h)

  admit_session-Quiet : Quiet (Both S F) (admit_session cfg d session_id)
  unfolding admit_session
  admit_session-Quiet r h =
      Allows-if (contains_key session_id r.sessions) _ _ (λ _ r'. At (Both S F) r')
        (λ r'. At (Both S F) r') (λ _. h)
        λ _.
          Allows-if (leb max_sessions_total (length r.sessions)) _ _ (λ _ r'. At (Both S F) r')
            (λ r'. At (Both S F) r') (λ _. h)
            λ _.
              Allows-if
                (leb max_sessions_per_src_ip (source_session_count r.counts d.client_addr.ip)) _ _
                (λ _ r'. At (Both S F) r') (λ r'. At (Both S F) r') (λ _. h)
                λ _.
                  Quiet-bind (Both S F) (allow_source_event d.client_addr new_session d.now)
                    continue_unless (allow_source_event-Quiet new_session)
                    (continue_unless-Quiet (Both S F)) r h

  At-if :
      (b : Bool) (r s : Relay)
      → At (Both S F) r
      → At (Both S F) s
      → At (Both S F) (if b then r else s)
  At-if true r s h k = h
  At-if false r s h k = k

  touch_session-Quiet :
      (is_hello : Bool) → Quiet (Both S F) (touch_session cfg d session_id is_hello)
  unfolding touch_session
  touch_session-Quiet is_hello r h = elim (Option-cases (lookup session_id r.sessions)) [
    | inl e ↦ rw (touch_session, e) (stable.comes r.sessions e h.0, h.1)
    | inr (session, e) ↦
        rw (touch_session, e)
          (At-if
            (not (requires_auth cfg.auth.mode)
              || (not is_hello && session.client_addr == d.client_addr))
            _ r (stable.renewed r.sessions session e h.0, h.1) h)
  ]

  -- up to the frames
  pub arrive-Allows :
      {A : Type 0} (Q : A → Relay → Type 0) (R : Relay → Type 0) (is_hello : Bool)
      (f : Bool × Bool → Run A) (r : Relay)
      → At (Both S F) r
      → ((r' : Relay) → At (Both S F) r' → R r')
      → ((known : Bool × Bool) (r' : Relay) → At (Both S F) r' → Allows Q R (f known r'))
      → Allows Q R (
          (do
            allowed ← allow_source_event d.client_addr packet d.now
            continue_unless allowed
            admit_session cfg d session_id
            known ← touch_session cfg d session_id is_hello
            count_ingress cfg d session_id
            f known)
            r)
  unfolding count_ingress
  arrive-Allows Q R is_hello f r h leave k =
      Allows-then (λ _ r'. At (Both S F) r') (λ r'. At (Both S F) r') Q R
        (allow_source_event d.client_addr packet d.now r) _ (allow_source_event-Quiet packet r h)
        leave
        λ allowed r1 h1.
          Allows-then (λ _ r'. At (Both S F) r') (λ r'. At (Both S F) r') Q R
            (continue_unless allowed r1) _ (continue_unless-Quiet (Both S F) allowed r1 h1) leave
            λ _ r2 h2.
              Allows-then (λ _ r'. At (Both S F) r') (λ r'. At (Both S F) r') Q R
                (admit_session cfg d session_id r2) _ (admit_session-Quiet r2 h2) leave
                λ _ r3 h3.
                  Allows-then (λ _ r'. At (Both S F) r') (λ r'. At (Both S F) r') Q R
                    (touch_session cfg d session_id is_hello r3) _
                    (touch_session-Quiet is_hello r3 h3) leave (λ known r4 h4. k known _ h4)

  -- an ack and the end
  ack_stop-Allows :
      (status : ℕ) (r : Relay)
      → At (Both S F) r
      → Allows
          (λ _ _. ⊥)
          (λ r'. At (Both S F) r')
          ((send_ack cfg d session_id status >> stop {A = Unit {0}}) r)
  ack_stop-Allows status r h =
      Allows-after (λ _ r'. At (Both S F) r') (λ _ _. ⊥) (λ r'. At (Both S F) r')
        (send_ack cfg d session_id status r) (λ _. stop)
        (send_ack-Quiet cfg d session_id (Both S F) status r h) (λ _ r' h'. h')

  bind_session-Allows :
      (ticket : VerifiedRelayTicket) (r : Relay)
      → Evidence cfg d session_id ticket
      → At (Both S F) r
      → Allows
          (λ _ r'. At (Both S F) r')
          (λ r'. At (Both S F) r')
          (bind_session cfg d session_id ticket r)
  unfolding bind_session
  bind_session-Allows ticket r v h = elim (Option-cases (lookup session_id r.sessions)) [
    | inl e ↦ rw (bind_session, e) h
    | inr (session, e) ↦ rw (bind_session, e) (stable.bound r.sessions session ticket e v h.0, h.1)
  ]

  take_ticket-Allows :
      (ticket : Option VerifiedRelayTicket) (r : Relay)
      → IsEvident cfg d session_id ticket
      → At (Both S F) r
      → Allows (λ _ _. ⊥) (λ r'. At (Both S F) r') (take_ticket cfg d session_id ticket r)
  unfolding take_over
  take_ticket-Allows none r v h = ack_stop-Allows (ack_status bad_format) r h
  take_ticket-Allows (some ticket) r v h =
      Allows-if (conflicts cfg d session_id ticket r.sessions) _ _ (λ _ _. ⊥)
        (λ r'. At (Both S F) r') (λ _. ack_stop-Allows auth_ack_owner_mismatch r h)
        (λ _.
          Allows-after (λ _ r'. At (Both S F) r') (λ _ _. ⊥) (λ r'. At (Both S F) r')
            (bind_session cfg d session_id ticket r)
            (λ _. send_ack cfg d session_id auth_ack_ok >> stop) (bind_session-Allows ticket r v h)
            (λ _ r' h'. ack_stop-Allows auth_ack_ok r' h'))

  -- The hello frame ends the handling of its datagram.
  pub handle_hello-Allows :
      (ticket : Option VerifiedRelayTicket) (r : Relay)
      → IsEvident cfg d session_id ticket
      → At (Both S F) r
      → Allows (λ _ _. ⊥) (λ r'. At (Both S F) r') (handle_hello cfg d session_id ticket r)
  unfolding handle_hello
  handle_hello-Allows ticket r v h = elim (Bool-cases (is_off cfg.auth.mode)) [
    | inl e ↦ rw (handle_hello, e) (ack_stop-Allows auth_ack_auth_disabled r h)
    | inr e ↦ rw (handle_hello, e) (take_ticket-Allows ticket r v h)
  ]
