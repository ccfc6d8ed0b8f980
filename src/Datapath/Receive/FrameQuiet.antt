-- ===== src/Datapath/Receive/FrameQuiet.antt =====
-- The small frames and the sessions (src/datapath_v2.rs, the receive loop).
use swifttunnel_relay.Prelude.{
  ℕ, Bool, false, not, ◌||◌, List, inl, inr, Option-cases, Bool-cases, if◌then◌else◌, ltb, eqb,
  length, Bytes, bytes_eq, lookup, get_elem?, from_be,
}
use swifttunnel_relay.Auth.Mode.{requires_auth}
use swifttunnel_relay.Sessions.{Sessions}
use swifttunnel_relay.Packet.Reader.{Parse, got, rejected, panicked, read, read_slice}
use swifttunnel_relay.Packet.Resolve.{parse_resolve_request}
use swifttunnel_relay.Datapath.Stats.{
  auth, rate_limit, too_small, pool, shard_queue, tcp_disabled, Stats,
}
use swifttunnel_relay.Datapath.Stats
use swifttunnel_relay.Datapath.Relay.{
  Config, Datagram, ShardMsg, keepalive, InboundTunPacket, shard_for_session, try_send,
}
use swifttunnel_relay.Datapath.Relay.Step.{Run, ◌>>=◌, ◌>>◌, pure, stop, reading, modify}
use swifttunnel_relay.Datapath.Relay.Control.{
  Sent, sent, full, no_shard, count_in, send_frame, send_shard, send_tun,
}
use swifttunnel_relay.Datapath.Relay.Quiet.{
  View, Quiet, Quiet-bind, Quiet-if, pure-Quiet, stop-Quiet, refuse_unless-Quiet, send_frame-Quiet,
}
use swifttunnel_relay.Datapath.Receive.{session_id_len}
use swifttunnel_relay.Datapath.Receive.Frames.{
  has_type, require_authenticated, answer_ping, pong, record_rtt, take_rtt_report, spawn_resolve,
  take_resolve_request, note_sent, take_keepalive, handle_frame, ping_frame_type, ping_frame_len,
  pong_frame_type, pong_frame_len, rtt_report_frame_type, rtt_report_frame_len,
  resolve_request_frame_type,
}
use swifttunnel_relay.Datapath.Receive.Touch.{Both}

-- A predicate on the sessions alone.
abbrev pub Only : (Sessions → Type 0) → View
Only S = Both S (λ tx_data shards tun resolves. Unit)

module _ (cfg : Config) (d : Datagram) (session_id : Bytes) (S : Sessions → Type 0) where
  pub reading-Quiet : {A : Type 0} (m : Parse A) → Quiet (Only S) (reading m)
  reading-Quiet (got a) r h = h
  reading-Quiet rejected r h = h
  reading-Quiet panicked r h = tt

  pub count_in-Quiet : (reason : Stats.DropReason) → Quiet (Only S) (count_in reason)
  count_in-Quiet reason r h = h

  pub send_shard-Quiet : (msg : ShardMsg) → Quiet (Only S) (send_shard session_id msg)
  unfolding send_shard
  send_shard-Quiet msg r h =
      let i = shard_for_session session_id (length r.shards) in
      elim (Option-cases (get_elem? r.shards i)) [
        | inl e ↦ rw (send_shard, e) h
        | inr (c, e) ↦ elim (Option-cases (try_send c msg)) [
          | inl e' ↦ rw (send_shard, e, e') h
          | inr (c', e') ↦ rw (send_shard, e, e') (h.0, tt)
        ]
      ]

  pub send_tun-Quiet : (f : Stats → Stats) (p : InboundTunPacket) → Quiet (Only S) (send_tun f p)
  unfolding send_tun
  send_tun-Quiet f p r h = elim (Option-cases r.tun) [
    | inl e ↦ rw (send_tun, e) h
    | inr (c, e) ↦ elim (Option-cases (try_send c p)) [
      | inl e' ↦ rw (send_tun, e, e') h
      | inr (c', e') ↦ rw (send_tun, e, e') (h.0, tt)
    ]
  ]

  module _ (known : Bool) where
    has_type-Quiet :
        (fits : Bool) (frame_type : ℕ)
        → Quiet (Only S) (has_type cfg d session_id known fits frame_type)
    unfolding has_type
    has_type-Quiet fits frame_type =
        Quiet-if (Only S) fits _ _
          (Quiet-bind (Only S) (reading (read d.buf session_id_len)) _
            (reading-Quiet (read d.buf session_id_len))
            (λ b. pure-Quiet (Only S) (eqb b frame_type)))
          (pure-Quiet (Only S) false)

    guarded-Quiet :
        {A : Type 0} (m : Run A)
        → Quiet (Only S) m
        → Quiet (Only S) (require_authenticated cfg d session_id known >> m)
    guarded-Quiet m k =
        Quiet-bind (Only S) (require_authenticated cfg d session_id known) _
          (refuse_unless-Quiet (Only S) (not (requires_auth cfg.auth.mode) || known) auth) (λ _. k)

    answer_ping-Quiet : Quiet (Only S) (answer_ping cfg d session_id known)
    unfolding answer_ping
    answer_ping-Quiet = guarded-Quiet _ (
        Quiet-bind (Only S) (reading (read_slice d.buf 9 13)) _
          (reading-Quiet (read_slice d.buf 9 13))
          λ seq.
            Quiet-bind (Only S) (reading (read_slice d.buf 13 21)) _
              (reading-Quiet (read_slice d.buf 13 21))
              λ client_ts.
                Quiet-bind (Only S)
                  (send_frame d.client_addr session_id (pong cfg d session_id known seq client_ts)
                    d.later)
                  (λ _. stop {A = Unit {0}})
                  (send_frame-Quiet (Only S) d.client_addr session_id _ d.later)
                  (λ _. stop-Quiet (Only S)))

    record_rtt-Quiet : (rtt : ℕ) → Quiet (Only S) (modify (record_rtt cfg d session_id known rtt))
    unfolding record_rtt
    record_rtt-Quiet rtt r h = elim (Option-cases (lookup session_id r.traffic)) [
      | inl e ↦ rw (record_rtt, e) h
      | inr (traffic, e) ↦ rw (record_rtt, e) h
    ]

    take_rtt_report-Quiet : Quiet (Only S) (take_rtt_report cfg d session_id known)
    unfolding take_rtt_report
    take_rtt_report-Quiet = guarded-Quiet _ (
        Quiet-bind (Only S) (reading (read_slice d.buf 9 13)) _
          (reading-Quiet (read_slice d.buf 9 13))
          λ rtt.
            Quiet-bind (Only S) (modify (record_rtt cfg d session_id known (from_be 0 rtt)))
              (λ _. stop {A = Unit {0}}) (record_rtt-Quiet (from_be 0 rtt))
              (λ _. stop-Quiet (Only S)))

    spawn_resolve-Quiet :
        (request : Parse (ℕ × List Bytes))
        → Quiet (Only S) (spawn_resolve cfg d session_id known request)
    unfolding spawn_resolve
    spawn_resolve-Quiet panicked r h = tt
    spawn_resolve-Quiet rejected r h = h
    spawn_resolve-Quiet (got (request_id, hosts)) r h = elim (Bool-cases cfg.resolve_socket) [
      | inl e ↦ rw e (h.0, tt)
      | inr e ↦ rw e h
    ]

    take_resolve_request-Quiet : Quiet (Only S) (take_resolve_request cfg d session_id known)
    unfolding take_resolve_request
    take_resolve_request-Quiet =
        guarded-Quiet _ (spawn_resolve-Quiet (parse_resolve_request d.buf d.len))

    note_sent-Quiet : (outcome : Sent) → Quiet (Only S) (note_sent cfg d session_id known outcome)
    note_sent-Quiet sent r h = h
    note_sent-Quiet full r h = h
    note_sent-Quiet no_shard r h = h

    take_keepalive-Quiet : Quiet (Only S) (take_keepalive cfg d session_id known)
    unfolding take_keepalive
    take_keepalive-Quiet = guarded-Quiet _ (
        Quiet-bind (Only S) (send_shard session_id (keepalive session_id d.client_addr)) _
          (send_shard-Quiet (keepalive session_id d.client_addr))
          λ outcome.
            Quiet-bind (Only S) (note_sent cfg d session_id known outcome)
              (λ _. stop {A = Unit {0}}) (note_sent-Quiet outcome) (λ _. stop-Quiet (Only S)))

    chain-Quiet :
        {A : Type 0} (fits : Bool) (frame_type : ℕ) (m : Run (Unit {0})) (n : Run A)
        → Quiet (Only S) m
        → Quiet (Only S) n
        → Quiet (Only S) (
            has_type cfg d session_id known fits frame_type >>= λ found.
            (if found then m else pure tt) >> n)
    chain-Quiet fits frame_type m n k l =
        Quiet-bind (Only S) (has_type cfg d session_id known fits frame_type) _
          (has_type-Quiet fits frame_type)
          λ found.
            Quiet-bind (Only S) (if found then m else pure tt) _
              (Quiet-if (Only S) found m (pure tt) k (pure-Quiet (Only S) tt)) (λ _. l)

    pub handle_frame-Quiet : Quiet (Only S) (handle_frame cfg d session_id known)
    unfolding handle_frame
    handle_frame-Quiet =
        chain-Quiet (eqb d.len ping_frame_len) ping_frame_type _ _ answer_ping-Quiet (
          chain-Quiet (eqb d.len pong_frame_len) pong_frame_type _ _ (stop-Quiet (Only S)) (
            chain-Quiet (eqb d.len rtt_report_frame_len) rtt_report_frame_type _ _
              take_rtt_report-Quiet
              (chain-Quiet (ltb session_id_len d.len) resolve_request_frame_type _ _
                take_resolve_request-Quiet
                (Quiet-if (Only S) (eqb d.len session_id_len) _ _ take_keepalive-Quiet
                  (pure-Quiet (Only S) tt)))))
