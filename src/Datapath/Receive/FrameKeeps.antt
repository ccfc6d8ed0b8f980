-- ===== src/Datapath/Receive/FrameKeeps.antt =====
-- The small frames and the invariant of the shared state (src/datapath_v2.rs, the receive loop).
use swifttunnel_relay.Prelude.{
  ℕ, zero, suc, ◌+◌, ◌≡◌, refl, arith, Bool, false, not, ◌||◌, List, inl, inr, Option-cases,
  Bool-cases, length, length-append, Bytes, bytes_eq, lookup, ◌∷◌, ◌++◌, from_be, if◌then◌else◌,
  ltb, eqb,
}
use swifttunnel_relay.Auth.Mode.{requires_auth}
use swifttunnel_relay.Sessions.{Sessions}
use swifttunnel_relay.Packet.Reader.{Parse, got, rejected, panicked, Gives, read, Gives-read}
use swifttunnel_relay.Packet.Resolve.{parse_resolve_request}
use swifttunnel_relay.Packet.Resolve.Request.{IsRequest, parse_resolve_request-IsRequest}
use swifttunnel_relay.Datapath.Stats.{auth, shard_queue}
use swifttunnel_relay.Datapath.Relay.{Relay, Config, Datagram, keepalive}
use swifttunnel_relay.Datapath.Relay.Step.{
  ◌>>=◌, ◌>>◌, pure, stop, reading, Leaves, Leaves-after, Leaves-reading, Run, modify,
}
use swifttunnel_relay.Datapath.Relay.Control.{Sent, sent, full, no_shard, send_frame, send_shard}
use swifttunnel_relay.Datapath.Relay.Sound.{Holds}
use swifttunnel_relay.Datapath.Relay.Sends.{AfterSend, send_shard-AfterSend}
use swifttunnel_relay.Datapath.Relay.Keeps.{
  Keeps, Keeps-bind, Keeps-if, pure-Keeps, stop-Keeps, refuse_unless-Keeps, count_in-Keeps,
  send_frame-Keeps,
}
use swifttunnel_relay.Datapath.Receive.{session_id_len}
use swifttunnel_relay.Datapath.Receive.Frames.{
  be_bytes, has_type, require_authenticated, pong, pong_frame_type, answer_ping, record_rtt,
  take_rtt_report, spawn_resolve, take_resolve_request, note_sent, take_keepalive, handle_frame,
  ping_frame_type, ping_frame_len, pong_frame_len, rtt_report_frame_type, rtt_report_frame_len,
  resolve_request_frame_type,
}
use swifttunnel_relay.Datapath.Receive.Buffer.{IsReceived, slice-Keeps}

length-be_bytes : (k n : ℕ) → length (be_bytes k n) ≡ k
unfolding be_bytes
length-be_bytes zero n = refl
length-be_bytes (suc k) n = omega (arith, length-be_bytes k n)

module _ (before : Sessions) (held : List ℕ) (cfg : Config) (d : Datagram) (session_id : Bytes)
    (id_len : length session_id ≡ session_id_len) (rec : IsReceived d) (known : Bool) where
  has_type-Keeps :
      (fits : Bool) (frame_type : ℕ)
      → Keeps before held (has_type cfg d session_id known fits frame_type)
  unfolding has_type
  has_type-Keeps fits frame_type =
      Keeps-if before held fits _ _
        (Keeps-bind before held (reading (read d.buf session_id_len)) _
          (λ r h.
            Leaves-reading _ _ _ (read d.buf session_id_len) r
              (Gives-read d.buf session_id_len (omega (arith, rec.size))) h (λ _ _. h))
          (λ b. pure-Keeps before held (eqb b frame_type)))
        (pure-Keeps before held false)

  -- a step after the test on the session
  guarded-Keeps :
      {A : Type 0} (m : Run A)
      → Keeps before held m
      → Keeps before held (require_authenticated cfg d session_id known >> m)
  guarded-Keeps m k =
      Keeps-bind before held (require_authenticated cfg d session_id known) _
        (refuse_unless-Keeps before held (not (requires_auth cfg.auth.mode) || known) auth) (λ _. k)

  length-pong :
      (seq client_ts : Bytes)
      → length (pong cfg d session_id known seq client_ts)
        ≡ length session_id + (1 + (length seq + (length client_ts + 8)))
  unfolding pong
  length-pong seq client_ts = omega (
    arith,
    length-append session_id (pong_frame_type ∷ (seq ++ (client_ts ++ be_bytes 8 d.mono_ms))),
    length-append seq (client_ts ++ be_bytes 8 d.mono_ms),
    length-append client_ts (be_bytes 8 d.mono_ms),
    length-be_bytes 8 d.mono_ms,
  )

  answer_ping-Keeps : Keeps before held (answer_ping cfg d session_id known)
  unfolding answer_ping
  answer_ping-Keeps = guarded-Keeps _ (
      slice-Keeps before held d rec 9 13 _ (omega arith) (omega arith) λ seq p.
        slice-Keeps before held d rec 13 21 _ (omega arith) (omega arith) λ client_ts q.
          Keeps-bind before held (send_frame d.client_addr session_id _ d.later) _
            (send_frame-Keeps before held d.client_addr session_id _ d.later
              (omega (arith, length-pong seq client_ts, id_len, p.size, q.size)))
            (λ _. stop-Keeps before held))

  record_rtt-Keeps :
      (rtt_us : ℕ) → Keeps before held (modify (record_rtt cfg d session_id known rtt_us))
  unfolding record_rtt
  record_rtt-Keeps rtt_us r h = elim (Option-cases (lookup session_id r.traffic)) [
    | inl e ↦ rw (record_rtt, e) h
    | inr (traffic, e) ↦ rw (record_rtt, e) h
  ]

  take_rtt_report-Keeps : Keeps before held (take_rtt_report cfg d session_id known)
  unfolding take_rtt_report
  take_rtt_report-Keeps = guarded-Keeps _ (
      slice-Keeps before held d rec 9 13 _ (omega arith) (omega arith) λ rtt_us _.
        Keeps-bind before held (modify (record_rtt cfg d session_id known (from_be 0 rtt_us)))
          (λ _. stop {A = Unit {0}}) (record_rtt-Keeps (from_be 0 rtt_us))
          (λ _. stop-Keeps before held))

  spawn_resolve-Keeps :
      (request : Parse (ℕ × List Bytes))
      → Gives IsRequest request
      → Keeps before held (spawn_resolve cfg d session_id known request)
  unfolding spawn_resolve
  spawn_resolve-Keeps panicked g r h = absurd g
  spawn_resolve-Keeps rejected g r h = h
  spawn_resolve-Keeps (got (request_id, hosts)) g r h = elim (Bool-cases cfg.resolve_socket) [
    | inl e ↦ rw e h
    | inr e ↦ rw e h
  ]

  take_resolve_request-Keeps : Keeps before held (take_resolve_request cfg d session_id known)
  unfolding take_resolve_request
  take_resolve_request-Keeps = guarded-Keeps _ (
      spawn_resolve-Keeps (parse_resolve_request d.buf d.len)
        (parse_resolve_request-IsRequest d.buf d.len (omega (arith, rec.size, rec.inside))))

  note_sent-Keeps :
      (outcome : Sent) (r : Relay)
      → AfterSend before held (keepalive session_id d.client_addr) outcome r
      → Leaves
          (λ _ r'. Holds before held r')
          (λ r'. Holds before held r')
          (note_sent cfg d session_id known outcome r)
  note_sent-Keeps sent r h = h
  note_sent-Keeps full r h = count_in-Keeps before held shard_queue r h
  note_sent-Keeps no_shard r h = h

  take_keepalive-Keeps : Keeps before held (take_keepalive cfg d session_id known)
  unfolding take_keepalive
  take_keepalive-Keeps = guarded-Keeps _ λ r h.
      Leaves-after _ _ _ (send_shard session_id (keepalive session_id d.client_addr) r) _
        (send_shard-AfterSend before held session_id (keepalive session_id d.client_addr) r h)
        (λ outcome r' (_, h').
          Leaves-after _ _ _ (note_sent cfg d session_id known outcome r') (λ _. stop)
            (note_sent-Keeps outcome r' h') (λ _ r'' h''. h''))

  -- one test of the chain, and what follows
  chain-Keeps :
      {A : Type 0} (fits : Bool) (frame_type : ℕ) (m : Run (Unit {0})) (n : Run A)
      → Keeps before held m
      → Keeps before held n
      → Keeps before held (
          has_type cfg d session_id known fits frame_type >>= λ found.
          (if found then m else pure tt) >> n)
  chain-Keeps fits frame_type m n k l =
      Keeps-bind before held (has_type cfg d session_id known fits frame_type) _
        (has_type-Keeps fits frame_type)
        λ found.
          Keeps-bind before held (if found then m else pure tt) _
            (Keeps-if before held found m (pure tt) k (pure-Keeps before held tt)) (λ _. l)

  pub handle_frame-Keeps : Keeps before held (handle_frame cfg d session_id known)
  unfolding handle_frame
  handle_frame-Keeps =
      chain-Keeps (eqb d.len ping_frame_len) ping_frame_type _ _ answer_ping-Keeps (
        chain-Keeps (eqb d.len pong_frame_len) pong_frame_type _ _ (stop-Keeps before held) (
          chain-Keeps (eqb d.len rtt_report_frame_len) rtt_report_frame_type _ _
            take_rtt_report-Keeps
            (chain-Keeps (ltb session_id_len d.len) resolve_request_frame_type _ _
              take_resolve_request-Keeps
              (Keeps-if before held (eqb d.len session_id_len) _ _ take_keepalive-Keeps
                (pure-Keeps before held tt)))))
