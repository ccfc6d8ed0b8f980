-- ===== src/Datapath/Respond/Queues.antt =====
-- What an answer of a game server puts into the transmit queue (src/datapath_v2.rs, `run_shard`).
use swifttunnel_relay.Prelude.{
  ℕ, ◌≡◌, ◌⊎◌, inl, inr, refl, ◌∙◌, ap, arith, Bool, true, false, [], ◌∷◌, ◌++◌, Option, none, some,
  Option-cases, ◌||◌, ltb, leb, length, take, drop, unwrap_or, Bytes, bytes_eq, lookup,
}
use std.Path.{transport}
use swifttunnel_relay.Packet.Response.{write_response_ip_packet_into_with_tos}
use swifttunnel_relay.Datapath.Pool.{release}
use swifttunnel_relay.Datapath.Relay.{Relay, TxPacket, queued_data, try_send, max_packet_size}
use swifttunnel_relay.Datapath.Relay.Step.{Step, going, done, crashed, pure}
use swifttunnel_relay.Datapath.Relay.Control.{acquire, give_back, write_buffer}
use swifttunnel_relay.Datapath.Relay.Quiet.{Allows, Allows-after, Allows-if}
use swifttunnel_relay.Datapath.Relay.Sound.{Longer, try_send_lem}
use swifttunnel_relay.Datapath.Respond.{
  session_id_len, Flow, Answer, is_covered, refresh_flow, refresh_session, send_data, deliver,
  deliver_in, carry, respond, responded,
}

-- Nothing is queued, or one packet of data is, for the flow's client and session.
abbrev pub Queues : Flow → Answer → Relay → Relay → Type 0
Queues flow answer r r' =
    (r'.tx_data ≡ r.tx_data)
    ⊎ ((packet : TxPacket) × (r'.tx_data.items ≡ r.tx_data.items ++ (packet ∷ []))
        × (packet.addr ≡ flow.client_addr)
        × (packet.session_id ≡ flow.session_id)
        × (packet.kind ≡ queued_data)
        × (packet.enqueued_at ≡ answer.received_at))

module _ (flow : Flow) (answer : Answer) (r0 : Relay) where
  abbrev Unqueued : Relay → Type 0
  Unqueued r = r.tx_data ≡ r0.tx_data

  -- the code does not leave early
  abbrev Never : Relay → Type 0
  Never r = ⊥

  abbrev Ends : {A : Type 0} → Step A → Type 0
  Ends step = Allows (λ _ r'. Queues flow answer r0 r') Never step

  refresh_session-Unqueued :
      (r : Relay) → Unqueued r → Allows (λ _ r'. Unqueued r') Never (refresh_session flow answer r)
  unfolding refresh_session
  refresh_session-Unqueued r h = elim (Option-cases (lookup flow.session_id r.sessions)) [
    | inl e ↦ rw (refresh_session, e) h
    | inr (session, e) ↦ rw (refresh_session, e) h
  ]

  acquire-Unqueued : (r : Relay) → Unqueued r → Allows (λ _ r'. Unqueued r') Never (acquire r)
  unfolding acquire
  acquire-Unqueued r h = h

  give_back-Unqueued :
      (i : ℕ) (r : Relay) → Unqueued r → Allows (λ _ r'. Unqueued r') Never (give_back i r)
  unfolding give_back
  give_back-Unqueued i r h = elim (Option-cases (release r.pool i)) [
    | inl e ↦ rw (give_back, e) tt
    | inr (pool', e) ↦ rw (give_back, e) h
  ]

  give_back-Ends : (i : ℕ) (r : Relay) → Unqueued r → Ends (give_back i r)
  unfolding give_back
  give_back-Ends i r h = elim (Option-cases (release r.pool i)) [
    | inl e ↦ rw (give_back, e) tt
    | inr (pool', e) ↦ rw (give_back, e) (inl h)
  ]

  write_buffer-Unqueued :
      (i : ℕ) (bytes : Bytes) (r : Relay)
      → Unqueued r
      → Allows (λ _ r'. Unqueued r') Never (write_buffer i bytes r)
  unfolding write_buffer
  write_buffer-Unqueued i bytes r h =
      Allows-if (leb r.pool.slots i || ltb max_packet_size (length bytes)) _ _ (λ _ r'. Unqueued r')
        Never (λ _. tt) (λ _. h)

  send_data-Ends :
      (packet : TxPacket) (r : Relay)
      → Unqueued r
      → packet.addr ≡ flow.client_addr
      → packet.session_id ≡ flow.session_id
      → packet.kind ≡ queued_data
      → packet.enqueued_at ≡ answer.received_at
      → Ends (send_data flow answer packet r)
  unfolding send_data
  send_data-Ends packet r h addr id kind at = elim (Option-cases (try_send r.tx_data packet)) [
    | inl e ↦ rw (send_data, e) (give_back-Ends packet.buf_idx _ h)
    | inr (tx', e) ↦
        rw (send_data, e)
          (inr (
            packet,
            transport (ap (Longer r.tx_data packet) e) (try_send_lem r.tx_data packet)
                ∙ ap (λ c. c.items ++ (packet ∷ [])) h,
            addr,
            id,
            kind,
            at,
          ))
  ]

  deliver-Ends : (idx : ℕ) (r : Relay) → Unqueued r → Ends (deliver flow answer idx r)
  unfolding deliver
  deliver-Ends idx r h =
      elim (Option-cases (
        write_response_ip_packet_into_with_tos (drop session_id_len (r.buffers idx)) answer.payload
          flow.original_info (unwrap_or answer.response_tos flow.original_info.tos))) [
            | inl e ↦
                rw (deliver, e)
                  (Allows-after (λ _ r'. Unqueued r') _ _ (give_back idx r) (λ _. pure false)
                    (give_back-Unqueued idx r h) (λ _ r' h'. inl h'))
            | inr ((out, n), e) ↦
                rw (deliver, e)
                  (Allows-after (λ _ r'. Unqueued r') _ _
                    (write_buffer idx (flow.session_id ++ take n out) r) _
                    (write_buffer-Unqueued idx (flow.session_id ++ take n out) r h)
                    (λ _ r' h'.
                      Allows-after (λ _ r''. Queues flow answer r0 r'') _ _
                        (send_data flow answer _ r') (λ _. pure true)
                        (send_data-Ends _ r' h' refl refl refl refl) (λ _ r'' q. q)))
          ]

  deliver_in-Ends : (idx : Option ℕ) (r : Relay) → Unqueued r → Ends (deliver_in flow answer idx r)
  deliver_in-Ends none r h = inl h
  deliver_in-Ends (some idx) r h = deliver-Ends idx r h

  carry-Ends : (r : Relay) → Unqueued r → Ends (carry flow answer r)
  unfolding carry
  carry-Ends r h =
      Allows-after (λ _ r'. Unqueued r') _ _ (refresh_session flow answer r) _
        (refresh_session-Unqueued r h)
        λ _ r1 h1.
          Allows-after (λ _ r'. Unqueued r') _ _ (acquire r1) (deliver_in flow answer)
            (acquire-Unqueued r1 h1) (λ idx r2 h2. deliver_in-Ends idx r2 h2)

-- The answer is carried: the flow is kept alive, and what is queued, if anything, is for its client.
abbrev pub Carries : Flow → Answer → Relay → Flow × Bool → Relay → Type 0
Carries flow answer r result r' =
    (result.0.last_activity ≡ answer.received_at)
    × (result.0.marked_for_removal ≡ none)
    × Queues flow answer r r'

respond-Carries :
    (flow : Flow) (answer : Answer) (r : Relay)
    → is_covered flow.session_id answer.now_unix r.sessions ≡ true
    → Allows (Carries flow answer r) (λ _. ⊥) (respond flow answer r)
unfolding respond refresh_flow
respond-Carries flow answer r covered =
    rw (respond, covered)
      (Allows-after (λ _ r'. Queues flow answer r r') _ _ (carry flow answer r)
        (λ more. pure (refresh_flow flow answer, more)) (carry-Ends flow answer r r refl)
        (λ _ r' q. (refl, refl, q)))

responded-Allows :
    (flow : Flow) (answer : Answer) (Q : Flow × Bool → Relay → Type 0) (step : Step (Flow × Bool))
    (r : Relay) (result : Flow × Bool)
    → Allows Q (λ _. ⊥) step
    → responded flow answer step ≡ some (r, result)
    → Q result r
responded-Allows flow answer Q (going found s) r result a e =
    let at : s ≡ r = ground (arith, e) in
    let same : found ≡ result = ground (arith, e) in
    transport (ap (Q result) at) (transport (ap (λ f. Q f s) same) a)
responded-Allows flow answer Q (done s) r result a e = absurd a
responded-Allows flow answer Q crashed r result a e = absurd (ground (arith, e))

pub responded-Carries :
    (flow : Flow) (answer : Answer) (r r' : Relay) (result : Flow × Bool)
    → is_covered flow.session_id answer.now_unix r.sessions ≡ true
    → responded flow answer (respond flow answer r) ≡ some (r', result)
    → Carries flow answer r result r'
responded-Carries flow answer r r' result covered e =
    responded-Allows flow answer (Carries flow answer r) (respond flow answer r) r' result
      (respond-Carries flow answer r covered) e
