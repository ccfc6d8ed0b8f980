-- ===== src/Datapath/Transmit/Routes.antt =====
-- Where a queued packet goes, and what becomes of its buffer (src/datapath_v2.rs, `send_tx_packet`).
use swifttunnel_relay.Prelude.{
  ℕ, ◌-◌, ◌/◌, ◌<◌, ◌≤◌, ◌≡◌, ◌⊎◌, inl, inr, refl, sym, ◌∙◌, ap, arith, Bool, true, false, none,
  some, Option-cases, Bool-cases, if◌then◌else◌, length, Bytes, bytes_eq, lookup, take, drop, slice,
  slice-some, List, ◌∷◌,
}
use std.Path.{transport}
use swifttunnel_relay.Addr.{SocketAddr}
use swifttunnel_relay.Sessions.{Sessions, forwarding_addr}
use swifttunnel_relay.Budget.Event.{Budgets, allow}
use swifttunnel_relay.Budget.Event.Charge.{Charged, allow-Charged}
use swifttunnel_relay.Packet.Reader.{Parse, got, rejected, panicked}
use swifttunnel_relay.Datapath.Stats.{DropReason, auth, rate_limit, stale_queue, socket_send}
use swifttunnel_relay.Datapath.Relay.{
  Relay, TxPacket, QueuedPacketKind, queued_data, queued_control, is_data, max_packet_size,
  max_data_queue_age, should_drop_stale_queued_packet,
}
use swifttunnel_relay.Datapath.Relay.Step.{
  Step, going, done, crashed, ◌>>◌, pure, Leaves, Leaves-after,
}
use swifttunnel_relay.Datapath.Relay.Control.{count_out, give_back}
use swifttunnel_relay.Datapath.Relay.Sound.{Holds, IsSound, OwnersKept}
use swifttunnel_relay.Datapath.Relay.Keeps.{count_out-Keeps, give_back-Leaves}
use swifttunnel_relay.Datapath.Transmit.{
  session_id_len, Sending, Handed, abandon, charge_out, charge, record_egress, count_sent, send_to,
  send_charged, charge_and_send, route, send_tx_packet, finished, transmit,
}

-- A packet in hand: its buffer is one of the pool's, with the session id and what follows.
pub record IsInHand (packet : TxPacket) (r : Relay) : Type 0 where
  pub small : packet.buf_idx < r.pool.slots
  pub size : length (r.buffers packet.buf_idx) ≡ max_packet_size
  pub framed : session_id_len ≤ packet.len
  pub fits : packet.len ≤ max_packet_size

-- Nothing is sent, or the packet's bytes are: control frames to the address that they were made for,
-- data that has not waited too long to the address that the session has now.
abbrev pub IsRouted : Sending → TxPacket → Relay → Handed → Type 0
IsRouted s packet r none = Unit
IsRouted s packet r (some (addr, bytes)) =
    (bytes ≡ take packet.len (r.buffers packet.buf_idx))
    × (((packet.kind ≡ queued_control) × (addr ≡ packet.addr))
        ⊎ ((packet.kind ≡ queued_data)
            × (s.now - packet.enqueued_at ≤ max_data_queue_age)
            × (forwarding_addr r.sessions packet.session_id s.auth_required s.now_unix
                ≡ some addr)))

kind_cases : (k : QueuedPacketKind) → (k ≡ queued_data) ⊎ (k ≡ queued_control)
kind_cases queued_data = inl refl
kind_cases queued_control = inr refl

-- the address alone
abbrev Allowed : Sending → TxPacket → Relay → SocketAddr → Type 0
Allowed s packet r addr =
    ((packet.kind ≡ queued_control) × (addr ≡ packet.addr))
    ⊎ ((packet.kind ≡ queued_data)
        × (s.now - packet.enqueued_at ≤ max_data_queue_age)
        × (forwarding_addr r.sessions packet.session_id s.auth_required s.now_unix ≡ some addr))

module _ (before : Sessions) (held : List ℕ) (s : Sending) (packet : TxPacket) (r0 : Relay)
    (hand : IsInHand packet r0) where
  -- how the code ends
  abbrev Ends : Step Handed → Type 0
  Ends step =
      Leaves (λ handed r'. Holds before held r' × IsRouted s packet r0 handed)
        (λ r'. Holds before held r') step

  -- the buffer goes back, and the result stands
  give_back-Ends :
      (handed : Handed) (r : Relay)
      → r.pool ≡ r0.pool
      → Holds before (packet.buf_idx ∷ held) r
      → IsRouted s packet r0 handed
      → Ends ((give_back packet.buf_idx >> pure handed) r)
  give_back-Ends handed r same h routed =
      Leaves-after (λ _ r'. Holds before held r') _ _ (give_back packet.buf_idx r)
        (λ _. pure handed)
        (give_back-Leaves before held packet.buf_idx r
          (omega (arith, hand.small, ap (λ p. p.slots) same)) h)
        (λ _ r' h'. (h', routed))

  abandon-Ends :
      (reason : DropReason) (r : Relay)
      → r.pool ≡ r0.pool
      → Holds before (packet.buf_idx ∷ held) r
      → Ends (abandon s packet reason r)
  unfolding abandon
  abandon-Ends reason r same h =
      give_back-Ends none _ same (count_out-Keeps before (packet.buf_idx ∷ held) reason r h) tt

  -- what stays while the budget is charged
  abbrev StillInHand : Relay → Type 0
  StillInHand r =
      (r.buffers ≡ r0.buffers) × (r.pool ≡ r0.pool) × Holds before (packet.buf_idx ∷ held) r

  charge_out-Leaves :
      Holds before (packet.buf_idx ∷ held) r0
      → Leaves (λ _ r'. StillInHand r') (λ r'. Holds before held r') (charge_out s packet r0)
  unfolding charge_out
  charge_out-Leaves (own, (reg, lim, bud, tot, buf)) =
      let inner =
        take (packet.len - session_id_len) (drop session_id_len (r0.buffers packet.buf_idx)) in
      rw
        (
          charge_out,
          slice-some (r0.buffers packet.buf_idx) session_id_len packet.len hand.framed
              (omega (arith, hand.fits, hand.size)),
        )
        (by_result (allow r0.budgets r0.sessions packet.session_id true inner (s.mono_ms / 1000)) (
          allow-Charged r0.budgets r0.sessions packet.session_id true inner (s.mono_ms / 1000) bud))
    where
      by_result :
          (result : Parse (Budgets × Bool))
          → Charged result
          → Leaves
              (λ _ r'. StillInHand r')
              (λ r'. Holds before held r')
              (elim result [
                | rejected ↦ crashed
                | panicked ↦ crashed
                | got (budgets', ok) ↦ going ok (record r0 { budgets = budgets' })
              ])
      by_result (got (budgets', ok)) v = (refl, refl, (own, (reg, lim, v, tot, buf)))
      by_result rejected v = absurd v
      by_result panicked v = absurd v

  charge-Leaves :
      (game : Bool)
      → Holds before (packet.buf_idx ∷ held) r0
      → Leaves
          (λ _ r'. StillInHand r')
          (λ r'. Holds before held r')
          ((if game then charge_out s packet else pure true) r0)
  charge-Leaves true h = charge_out-Leaves h
  charge-Leaves false h = (refl, refl, h)

  count_sent-Leaves :
      (r : Relay)
      → r.pool ≡ r0.pool
      → Holds before (packet.buf_idx ∷ held) r
      → Leaves
          (λ _ r'. (r'.pool ≡ r0.pool) × Holds before (packet.buf_idx ∷ held) r')
          (λ r'. Holds before held r')
          (count_sent s packet r)
  unfolding count_sent record_egress
  count_sent-Leaves r same h = elim (Option-cases (lookup packet.session_id r.traffic)) [
    | inl e ↦ rw (count_sent, record_egress, e) (same, h)
    | inr (traffic, e) ↦ rw (count_sent, record_egress, e) (same, h)
  ]

  send_to-Ends :
      (addr : SocketAddr) (r : Relay)
      → r.pool ≡ r0.pool
      → Holds before (packet.buf_idx ∷ held) r
      → Allowed s packet r0 addr
      → Ends (send_to s packet addr (some (take packet.len (r0.buffers packet.buf_idx))) r)
  unfolding send_to
  send_to-Ends addr r same h ok = by_answer (s.accepts addr bytes)
    where
      bytes : Bytes
      bytes = take packet.len (r0.buffers packet.buf_idx)

      by_answer :
          (accepted : Bool)
          → Ends (
              (do
                if accepted then count_sent s packet else count_out socket_send
                give_back packet.buf_idx
                pure (some (addr, bytes)))
                r)
      by_answer true =
          Leaves-after (λ _ r'. (r'.pool ≡ r0.pool) × Holds before (packet.buf_idx ∷ held) r') _ _
            (count_sent s packet r) _ (count_sent-Leaves r same h)
            (λ _ r' (same', h'). give_back-Ends (some (addr, bytes)) r' same' h' (refl, ok))
      by_answer false =
          give_back-Ends (some (addr, bytes)) _ same
            (count_out-Keeps before (packet.buf_idx ∷ held) socket_send r h) (refl, ok)

  send_charged-Ends :
      (addr : SocketAddr) (ok : Bool) (r : Relay)
      → StillInHand r
      → Allowed s packet r0 addr
      → Ends (send_charged s packet addr ok r)
  send_charged-Ends addr false r (kept, same, h) allowed = abandon-Ends rate_limit r same h
  send_charged-Ends addr true r (kept, same, h) allowed =
      let whole : slice (r.buffers packet.buf_idx) 0 packet.len
          ≡ some (take packet.len (r0.buffers packet.buf_idx)) =
        ap (λ b. slice (b packet.buf_idx) 0 packet.len) kept
        ∙ (slice-some (r0.buffers packet.buf_idx) 0 packet.len (omega arith)
              (omega (arith, hand.fits, hand.size))
            ∙ ap (λ n. some (take n (r0.buffers packet.buf_idx))) (omega arith)) in
      transport (ap (λ o. Ends (send_to s packet addr o r)) (sym whole))
        (send_to-Ends addr r same h allowed)

  charge_and_send-Ends :
      (addr : SocketAddr)
      → Holds before (packet.buf_idx ∷ held) r0
      → Allowed s packet r0 addr
      → Ends (charge_and_send s packet addr r0)
  unfolding charge_and_send
  charge_and_send-Ends addr h allowed =
      Leaves-after (λ _ r'. StillInHand r') _ _ (charge s packet r0) (send_charged s packet addr)
        (charge-Leaves (is_data packet.kind) h)
        (λ ok r' still. send_charged-Ends addr ok r' still allowed)

  route-Ends :
      should_drop_stale_queued_packet packet.kind packet.enqueued_at s.now ≡ false
      → Holds before (packet.buf_idx ∷ held) r0
      → Ends (route s packet r0)
  unfolding route should_drop_stale_queued_packet
  route-Ends fresh h = elim (kind_cases packet.kind) [
    | inr control ↦
        rw (route, ap is_data control) (charge_and_send-Ends packet.addr h (inl (control, refl)))
    | inl game ↦
        let in_time : s.now - packet.enqueued_at ≤ max_data_queue_age =
          ground (arith, fresh, ap is_data game) in
        elim (Option-cases
          (forwarding_addr r0.sessions packet.session_id s.auth_required s.now_unix)) [
            | inl e ↦ rw (route, ap is_data game, e) (abandon-Ends auth r0 refl h)
            | inr (addr, e) ↦
                rw (route, ap is_data game, e)
                  (charge_and_send-Ends addr h (inr (game, in_time, e)))
          ]
  ]

  send_tx_packet-Ends : Holds before (packet.buf_idx ∷ held) r0 → Ends (send_tx_packet s packet r0)
  unfolding send_tx_packet
  send_tx_packet-Ends h =
      elim (Bool-cases (should_drop_stale_queued_packet packet.kind packet.enqueued_at s.now)) [
        | inl e ↦ rw (send_tx_packet, e) (abandon-Ends stale_queue r0 refl h)
        | inr e ↦ rw (send_tx_packet, e) (route-Ends e h)
      ]

-- what the transmit thread is left with
finished_lem :
    (Q : Handed → Relay → Type 0) (R : Relay → Type 0) (step : Step Handed)
    → ((r : Relay) → R r → Q none r)
    → Leaves Q R step
    → (r : Relay) × (handed : Handed) × (finished step ≡ some (r, handed)) × Q handed r
finished_lem Q R (going handed r) k l = (r, handed, refl, l)
finished_lem Q R (done r) k l = (r, none, refl, k r l)
finished_lem Q R crashed k l = absurd l

-- The transmit thread never panics and never waits on the pool, for a packet whose buffer it holds, one
-- of the pool's with its 1,600 bytes, and whose length is between 8 and 1,600. The packet's buffer is
-- no longer held afterwards, the state is still sound with every buffer in one place, and no session
-- loses its owner. What is handed to the socket, if anything is, are the packet's bytes. A control frame
-- goes to the address that it was made for. Data goes out only within 250 ms of being queued, and only
-- to the address that its session has now, while its lease runs.
pub transmit-IsSound :
    (s : Sending) (packet : TxPacket) (held : List ℕ) (r : Relay)
    → IsInHand packet r
    → IsSound (packet.buf_idx ∷ held) r
    → (r' : Relay) × (handed : Handed) × (transmit s packet r ≡ some (r', handed))
      × OwnersKept r.sessions r'.sessions
      × IsSound held r'
      × IsRouted s packet r handed
unfolding transmit
transmit-IsSound s packet held r hand sound =
    let (r', handed, e, (h, routed)) =
      finished_lem (λ handed r'. Holds r.sessions held r' × IsRouted s packet r handed)
        (λ r'. Holds r.sessions held r') (send_tx_packet s packet r) (λ r' h. (h, tt))
        (send_tx_packet-Ends r.sessions held s packet r hand
          (record { kept = λ id user o. o }, sound)) in
    (r', handed, e, h.0, h.1, routed)
