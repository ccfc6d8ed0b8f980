-- ===== src/Datapath/Receive/Hello.antt =====
-- The hello frame and the invariant of the shared state (src/datapath_v2.rs, the receive loop).
use swifttunnel_relay.Prelude.{
  ◌≡◌, ℕ, refl, arith, false, inl, inr, Option, none, some, Option-cases, length, Bytes, bytes_eq,
  bytes_beq_iff, lookup, List,
}
use swifttunnel_relay.Auth.Mode.{bad_format, ack_status}
use swifttunnel_relay.Auth.Ticket.{VerifiedRelayTicket}
use swifttunnel_relay.Sessions.{SessionEntry, Sessions}
use swifttunnel_relay.Datapath.Relay.{Relay, Config, Datagram}
use swifttunnel_relay.Datapath.Relay.Step.{◌>>◌, stop, Leaves, Leaves-after}
use swifttunnel_relay.Datapath.Relay.Sound.{Holds}
use swifttunnel_relay.Datapath.Relay.Registry.{OwnerStays}
use swifttunnel_relay.Datapath.Relay.Keeps.{Keeps, Keeps-if, Leaves-if}
use swifttunnel_relay.Datapath.Receive.Buffer.{IsReceived}
use swifttunnel_relay.Datapath.Receive.{
  session_id_len, auth_ack_ok, auth_ack_auth_disabled, auth_ack_owner_mismatch, send_ack,
  bind_entry, owner_conflict, conflicts, bind_session, take_over, take_ticket, handle_hello, is_off,
}
use swifttunnel_relay.Datapath.Receive.Stages.{ack_stop-Keeps, rebind-Holds}

module _ (before : Sessions) (held : List ℕ) (cfg : Config) (d : Datagram) (session_id : Bytes)
    (id_len : length session_id ≡ session_id_len) (rec : IsReceived d) where
  -- A session without a conflict keeps its owner, or gets one.
  bind-OwnerStays :
      (ticket : VerifiedRelayTicket) (session : SessionEntry)
      → owner_conflict cfg d session_id ticket session ≡ false
      → OwnerStays session (bind_entry cfg d session_id ticket session)
  unfolding owner_conflict bind_entry
  bind-OwnerStays ticket session free = ground (arith, bytes_beq_iff session.user_id ticket.user_id)

  bind_at :
      (ticket : VerifiedRelayTicket) (session : SessionEntry)
      → (bind_entry cfg d session_id ticket session).client_addr ≡ d.client_addr
  unfolding bind_entry
  bind_at ticket session = refl

  bind_session-Leaves :
      (ticket : VerifiedRelayTicket) (r : Relay)
      → conflicts cfg d session_id ticket r.sessions ≡ false
      → Holds before held r
      → Leaves
          (λ _ r'. Holds before held r')
          (λ r'. Holds before held r')
          (bind_session cfg d session_id ticket r)
  unfolding bind_session
  bind_session-Leaves ticket r free h = elim (Option-cases (lookup session_id r.sessions)) [
    | inl e ↦ rw (bind_session, e) h
    | inr (session, e) ↦
        let clear : owner_conflict cfg d session_id ticket session ≡ false =
          ground (arith, e, free) in
        rw (bind_session, e)
          (rebind-Holds before held cfg d session_id id_len rec session
            (bind_entry cfg d session_id ticket session) r e (bind_at ticket session)
            (bind-OwnerStays ticket session clear) h)
  ]

  take_over-Keeps :
      (ticket : VerifiedRelayTicket) → Keeps before held (take_over cfg d session_id ticket)
  unfolding take_over
  take_over-Keeps ticket r h =
      Leaves-if before held (conflicts cfg d session_id ticket r.sessions) _ _
        (λ _ r'. Holds before held r') (λ r'. Holds before held r')
        (λ _.
          ack_stop-Keeps before held cfg d session_id id_len rec (Unit {0}) auth_ack_owner_mismatch
            r h)
        (λ free.
          Leaves-after _ _ _ (bind_session cfg d session_id ticket r)
            (λ _. send_ack cfg d session_id auth_ack_ok >> stop)
            (bind_session-Leaves ticket r free h)
            (λ _ r' h'.
              ack_stop-Keeps before held cfg d session_id id_len rec (Unit {0}) auth_ack_ok r' h'))

  take_ticket-Keeps :
      (ticket : Option VerifiedRelayTicket)
      → Keeps before held (take_ticket cfg d session_id ticket)
  take_ticket-Keeps (some ticket) r h = take_over-Keeps ticket r h
  take_ticket-Keeps none r h =
      ack_stop-Keeps before held cfg d session_id id_len rec (Unit {0}) (ack_status bad_format) r h

  pub handle_hello-Keeps :
      (ticket : Option VerifiedRelayTicket)
      → Keeps before held (handle_hello cfg d session_id ticket)
  unfolding handle_hello
  handle_hello-Keeps ticket =
      Keeps-if before held (is_off cfg.auth.mode) _ _
        (ack_stop-Keeps before held cfg d session_id id_len rec (Unit {0}) auth_ack_auth_disabled)
        (take_ticket-Keeps ticket)
