-- ===== src/Datapath/Respond/Covered.antt =====
-- What an answer of a game server may do (src/datapath_v2.rs, `run_shard`).
use swifttunnel_relay.Prelude.{
  ℕ, ◌<◌, ◌≤◌, ◌≡◌, ◌⊎◌, ◌↔◌, inl, inr, refl, arith, Bool, true, false, ◌++◌, Option, none, some,
  Option-cases, Bool-cases, length, length-append, length-take, length-drop, take, drop, unwrap_or,
  Bytes, bytes_eq, lookup, List, ◌∷◌,
}
use swifttunnel_relay.Sessions.{SessionEntry, Sessions, is_authenticated, session_lease_is_current}
use swifttunnel_relay.Packet.Parse.{OriginalPacketInfo}
use swifttunnel_relay.Packet.Response.{write_response_ip_packet_into_with_tos}
use swifttunnel_relay.Datapath.Stats.{pool, tx_queue}
use swifttunnel_relay.Datapath.Relay.{Relay, TxPacket, try_send, max_packet_size}
use swifttunnel_relay.Datapath.Relay.Step.{
  Step, going, done, crashed, pure, Leaves, Leaves-after, Leaves-both,
}
use swifttunnel_relay.Datapath.Relay.Control.{acquire, give_back, write_buffer}
use swifttunnel_relay.Datapath.Relay.Sound.{Holds, IsSound, OwnersKept, queued-try_send, weigh}
use swifttunnel_relay.Datapath.Relay.Registry.{OwnerStays, update-IsRegistry, insert-OwnersKept}
use swifttunnel_relay.Datapath.Relay.Keeps.{
  InHand, acquire-InHand, give_back-Leaves, write_buffer-Leaves, count_out-Keeps,
}
use swifttunnel_relay.Datapath.Respond.Queues.{Carries, responded-Carries}
use swifttunnel_relay.Datapath.Respond.{
  session_id_len, Flow, Answer, is_covered, refresh_flow, refreshed, refresh_session, send_data,
  deliver, deliver_in, carry, respond, responded,
}

-- Every buffer has its MAX_PACKET_SIZE bytes.
pub record IsFilled (buffers : ℕ → Bytes) : Type 0 where
  pub size : (i : ℕ) → length (buffers i) ≡ max_packet_size

written_fits :
    (dst payload : Bytes) (info : OriginalPacketInfo) (tos : ℕ) (out : Bytes) (n : ℕ)
    → write_response_ip_packet_into_with_tos dst payload info tos ≡ some (out, n)
    → n ≤ length dst
unfolding write_response_ip_packet_into_with_tos
written_fits dst payload info tos out n e = ground (arith, e)

module _ (before : Sessions) (held : List ℕ) (flow : Flow) (answer : Answer)
    (id_len : length flow.session_id ≡ session_id_len) where
  abbrev Stays : {A : Type 0} → Step A → Type 0
  Stays step = Leaves (λ _ r'. Holds before held r') (λ r'. Holds before held r') step

  owner_stays : (session : SessionEntry) → OwnerStays session (refreshed flow answer session)
  owner_stays session = elim (Bool-cases (is_authenticated session.auth_state)) [
    | inl e ↦ inr (e, refl)
    | inr e ↦ inl e
  ]

  refresh_session-Leaves :
      (r : Relay)
      → IsFilled r.buffers
      → Holds before held r
      → Leaves
          (λ _ r'. IsFilled r'.buffers × Holds before held r')
          (λ r'. Holds before held r')
          (refresh_session flow answer r)
  unfolding refresh_session
  refresh_session-Leaves r full (own, (reg, lim, bud, tot, buf)) =
      elim (Option-cases (lookup flow.session_id r.sessions)) [
        | inl e ↦ rw (refresh_session, e) (full, (own, (reg, lim, bud, tot, buf)))
        | inr (session, e) ↦
            let session' : SessionEntry = refreshed flow answer session in
            rw (refresh_session, e)
              (
                full,
                (
                  insert-OwnersKept before r.sessions flow.session_id session session' e
                      (owner_stays session) own,
                  (
                    update-IsRegistry r.sessions r.counts flow.session_id session session' e refl
                        reg,
                    lim,
                    bud,
                    tot,
                    buf,
                  ),
                ),
              )
      ]

  send_data-Leaves :
      (packet : TxPacket) (r : Relay)
      → packet.buf_idx < r.pool.slots
      → Holds before (packet.buf_idx ∷ held) r
      → Stays (send_data flow answer packet r)
  unfolding send_data weigh
  send_data-Leaves packet r small (own, (reg, lim, bud, tot, buf)) =
      elim (Option-cases (try_send r.tx_data packet)) [
        | inl e ↦
            rw (send_data, e)
              (give_back-Leaves before held packet.buf_idx _ small (
                count_out-Keeps before (packet.buf_idx ∷ held) tx_queue r
                  (own, (reg, lim, bud, tot, buf))))
        | inr (tx', e) ↦
            rw (send_data, e)
              (
                own,
                (
                  reg,
                  lim,
                  bud,
                  tot,
                  record {
                    indices = buf.indices;
                    whole = λ weight.
                        omega
                          (arith, buf.whole weight, queued-try_send weight r.tx_data tx' packet e);
                  },
                ),
              )
      ]

  deliver-Leaves :
      (idx : ℕ) (r : Relay)
      → IsFilled r.buffers
      → idx < r.pool.slots
      → Holds before (idx ∷ held) r
      → Stays (deliver flow answer idx r)
  unfolding deliver
  deliver-Leaves idx r full small h =
      let dst = drop session_id_len (r.buffers idx) in
      let tos = unwrap_or answer.response_tos flow.original_info.tos in
      elim (Option-cases
        (write_response_ip_packet_into_with_tos dst answer.payload flow.original_info tos)) [
          | inl e ↦
              rw (deliver, e)
                (Leaves-after (λ _ r'. Holds before held r') _ _ (give_back idx r) (λ _. pure false)
                  (give_back-Leaves before held idx r small h) (λ _ r' h'. h'))
          | inr ((out, n), e) ↦
              let fits = written_fits dst answer.payload flow.original_info tos out n e in
              let frame = flow.session_id ++ take n out in
              let short : length frame ≤ max_packet_size = omega (
                arith,
                id_len,
                full.size idx,
                fits,
                length-append flow.session_id (take n out),
                length-take n out,
                length-drop session_id_len (r.buffers idx),
              ) in
              rw (deliver, e)
                (Leaves-after _ _ _ (write_buffer idx frame r) _
                  (write_buffer-Leaves before held idx frame r short small h)
                  (λ _ r' (small', h').
                    Leaves-after (λ _ r''. Holds before held r'') _ _ (send_data flow answer _ r')
                      (λ _. pure true) (send_data-Leaves _ r' small' h') (λ _ r'' h''. h'')))
        ]

  acquire-IsFilled :
      (r : Relay)
      → IsFilled r.buffers
      → Leaves (λ _ r'. IsFilled r'.buffers) (λ _. Unit) (acquire r)
  unfolding acquire
  acquire-IsFilled r full = full

  acquire-Leaves :
      (r : Relay)
      → IsFilled r.buffers
      → Holds before held r
      → Leaves
          (λ idx r'. InHand before held idx r' × IsFilled r'.buffers)
          (λ r'. Holds before held r')
          (acquire r)
  acquire-Leaves r full h =
      Leaves-both (InHand before held) (λ _ r'. IsFilled r'.buffers) (λ r'. Holds before held r')
        (λ _. Unit) (acquire r) (acquire-InHand before held r h) (acquire-IsFilled r full)

  deliver_in-Leaves :
      (idx : Option ℕ) (r : Relay)
      → InHand before held idx r
      → IsFilled r.buffers
      → Stays (deliver_in flow answer idx r)
  deliver_in-Leaves none r h full = count_out-Keeps before held pool r h
  deliver_in-Leaves (some idx) r (small, h) full = deliver-Leaves idx r full small h

  carry-Leaves :
      (r : Relay) → IsFilled r.buffers → Holds before held r → Stays (carry flow answer r)
  unfolding carry
  carry-Leaves r full h =
      Leaves-after _ _ _ (refresh_session flow answer r) _ (refresh_session-Leaves r full h)
        λ _ r1 (full1, h1).
          Leaves-after _ _ _ (acquire r1) (deliver_in flow answer) (acquire-Leaves r1 full1 h1)
            (λ idx r2 (hand, full2). deliver_in-Leaves idx r2 hand full2)

  respond-Leaves :
      (r : Relay)
      → IsFilled r.buffers
      → Holds before held r
      → is_covered flow.session_id answer.now_unix r.sessions ≡ true
      → Stays (respond flow answer r)
  unfolding respond
  respond-Leaves r full h covered =
      rw (respond, covered)
        (Leaves-after (λ _ r'. Holds before held r') _ _ (carry flow answer r)
          (λ more. pure (refresh_flow flow answer, more)) (carry-Leaves r full h) (λ _ r' h'. h'))

  responded_lem :
      (step : Step (Flow × Bool))
      → Stays step
      → (r' : Relay) × (result : Flow × Bool) × (responded flow answer step ≡ some (r', result))
        × Holds before held r'
  responded_lem (going result r) h = (r, result, refl, h)
  responded_lem (done r) h = (r, (flow, false), refl, h)
  responded_lem crashed h = absurd h

-- The session is there, and has no lease or one that runs.
abbrev pub IsCovered : Bytes → ℕ → Sessions → Type 0
IsCovered session_id now_unix sessions =
    (session : SessionEntry) × (lookup session_id sessions ≡ some session)
    × ((session.lease_expires_at_unix ≡ none)
        ⊎ ((expires_at : ℕ) × (session.lease_expires_at_unix ≡ some expires_at)
            × (now_unix < expires_at)))

is_covered_iff :
    (session_id : Bytes) (now_unix : ℕ) (sessions : Sessions)
    → (is_covered session_id now_unix sessions ≡ true) ↔ IsCovered session_id now_unix sessions
unfolding is_covered session_lease_is_current
is_covered_iff session_id now_unix sessions = (
  λ h. elim (Option-cases (lookup session_id sessions)) [
    | inl gone ↦ absurd (ground (arith, gone, h))
    | inr (session, found) ↦ elim (Option-cases session.lease_expires_at_unix) [
      | inl no_lease ↦ (session, found, inl no_lease)
      | inr (expires_at, lease) ↦
          (session, found, inr (expires_at, lease, ground (arith, found, lease, h)))
    ]
  ],
  λ (session, found, lease). elim lease [
    | inl no_lease ↦ ground (arith, found, no_lease)
    | inr (expires_at, leased, live) ↦ ground (arith, found, leased, live)
  ],
)

-- An answer of a game server never makes a shard panic or wait on the pool, and leaves the state sound,
-- each buffer in one place, whether it is queued or not, if the pool's buffers have their 1,600 bytes
-- and the flow's session id its 8. Either the session is there and has no lease or one that has not
-- expired: then the flow is active from now on, and nothing is put into the transmit queue but one
-- packet of data at most, for the flow's client and session. Or this is not so: then the answer changes
-- nothing at all, so that it does not keep the session or the flow alive, and the shard stops reading
-- from the flow.
pub respond-IsSound :
    (flow : Flow) (answer : Answer) (held : List ℕ) (r : Relay)
    → length flow.session_id ≡ session_id_len
    → IsFilled r.buffers
    → IsSound held r
    → (r' : Relay) × (result : Flow × Bool) × (responded flow answer (respond flow answer r)
        ≡ some (r', result))
      × OwnersKept r.sessions r'.sessions
      × IsSound held r'
      × ((IsCovered flow.session_id answer.now_unix r.sessions × Carries flow answer r result r')
          ⊎ ((IsCovered flow.session_id answer.now_unix r.sessions → ⊥)
              × (r' ≡ r)
              × (result ≡ (flow, false))))
unfolding respond
respond-IsSound flow answer held r id_len full sound =
    elim (Bool-cases (is_covered flow.session_id answer.now_unix r.sessions)) [
      | inl covered ↦
          let (r', result, e, h) =
            responded_lem r.sessions held flow answer id_len (respond flow answer r) (
              respond-Leaves r.sessions held flow answer id_len r full
                (record { kept = λ id user o. o }, sound) covered) in
          (
            r',
            result,
            e,
            h.0,
            h.1,
            inl (
              (is_covered_iff flow.session_id answer.now_unix r.sessions).0 covered,
              responded-Carries flow answer r r' result covered e,
            ),
          )
      | inr lapsed ↦ (
        r,
        (flow, false),
        rw (respond, lapsed) refl,
        record { kept = λ id user o. o },
        sound,
        inr (
          λ covered.
              cc (lapsed, (is_covered_iff flow.session_id answer.now_unix r.sessions).1 covered),
          refl,
          refl,
        ),
      )
    ]
