-- ===== src/Datapath/Receive/Frames.antt =====
-- src/datapath_v2.rs, the receive loop: ping, pong, RTT report, resolve request and keepalive frames.
use swifttunnel_relay.Prelude.{
  ℕ, ◌+◌, ◌/◌, ◌%◌, ◌^◌, zero, suc, Bool, false, not, ◌||◌, List, [], ◌∷◌, ◌++◌, none, some,
  if◌then◌else◌, ltb, eqb, Bytes, bytes_eq, lookup, insert, from_be,
}
use swifttunnel_relay.Auth.Mode.{requires_auth}
use swifttunnel_relay.Packet.Reader.{Parse, got, rejected, panicked, read, read_slice}
use swifttunnel_relay.Packet.Resolve.{parse_resolve_request}
use swifttunnel_relay.Datapath.Stats.{auth, shard_queue}
use swifttunnel_relay.Datapath.Relay.{Relay, Config, Datagram, keepalive}
use swifttunnel_relay.Datapath.Relay.Step.{
  Run, done, crashed, ◌>>=◌, ◌>>◌, pure, modify, stop, reading,
}
use swifttunnel_relay.Datapath.Relay.Control.{
  refuse_unless, count_in, send_frame, send_shard, Sent, sent, full, no_shard,
}
use swifttunnel_relay.Datapath.Receive.{session_id_len}

abbrev pub ping_frame_type : ℕ
ping_frame_type = 0xA3

abbrev pub pong_frame_type : ℕ
pong_frame_type = 0xA4

abbrev pub ping_frame_len : ℕ
ping_frame_len = session_id_len + 1 + 4 + 8

abbrev pub pong_frame_len : ℕ
pong_frame_len = session_id_len + 1 + 4 + 8 + 8

abbrev pub rtt_report_frame_type : ℕ
rtt_report_frame_type = 0xA5

abbrev pub rtt_report_frame_len : ℕ
rtt_report_frame_len = session_id_len + 1 + 4

abbrev pub resolve_request_frame_type : ℕ
resolve_request_frame_type = 0xA6

-- the bytes of a number, high first: `to_be_bytes`
unfoldable pub be_bytes : ℕ → ℕ → Bytes
be_bytes zero n = []
be_bytes (suc k) n = n / 256 ^ k % 256 ∷ be_bytes k n

module _ (cfg : Config) (d : Datagram) (session_id : Bytes) (session_authenticated : Bool) where
  -- a frame of one type, whose length the first test decides on
  unfoldable pub has_type : Bool → ℕ → Run Bool
  has_type fits frame_type =
      if fits
      then (do b ← reading (read d.buf session_id_len); pure (eqb b frame_type))
      else pure false

  abbrev pub require_authenticated : Run (Unit {0})
  require_authenticated =
      refuse_unless (not (requires_auth cfg.auth.mode) || session_authenticated) auth

  -- the sequence number and the client's time come back as they are
  unfoldable pub pong : Bytes → Bytes → Bytes
  pong seq client_ts =
      session_id ++ (pong_frame_type ∷ (seq ++ (client_ts ++ be_bytes 8 d.mono_ms)))

  unfoldable pub answer_ping : Run (Unit {0})
  answer_ping = do
    require_authenticated
    seq ← reading (read_slice d.buf (session_id_len + 1) (session_id_len + 5))
    client_ts ← reading (read_slice d.buf (session_id_len + 5) (session_id_len + 13))
    send_frame d.client_addr session_id (pong seq client_ts) d.later
    stop

  unfoldable pub record_rtt : ℕ → Relay → Relay
  record_rtt rtt_us r = elim (lookup session_id r.traffic) [
    | none ↦ r
    | some traffic ↦ record r {
      traffic = insert session_id (record traffic { last_rtt_us = rtt_us }) r.traffic;
    }
  ]

  unfoldable pub take_rtt_report : Run (Unit {0})
  take_rtt_report = do
    require_authenticated
    rtt_us ← reading (read_slice d.buf (session_id_len + 1) (session_id_len + 5))
    modify (record_rtt (from_be 0 rtt_us))
    stop

  -- The lookup runs in a task of its own, which sends the answer.
  unfoldable pub spawn_resolve : Parse (ℕ × List Bytes) → Run (Unit {0})
  spawn_resolve panicked r = crashed
  spawn_resolve rejected r = done r
  spawn_resolve (got (request_id, hosts)) r =
      if cfg.resolve_socket
      then done (record r {
        resolves =
            r.resolves
            ++ (record {
              session_id = session_id;
              request_id = request_id;
              hosts = hosts;
              addr = d.client_addr;
            }
                ∷ []);
      })
      else done r

  unfoldable pub take_resolve_request : Run (Unit {0})
  take_resolve_request = do require_authenticated; spawn_resolve (parse_resolve_request d.buf d.len)

  abbrev pub note_sent : Sent → Run (Unit {0})
  note_sent sent = pure tt
  note_sent full = count_in shard_queue
  note_sent no_shard = pure tt

  unfoldable pub take_keepalive : Run (Unit {0})
  take_keepalive = do
    require_authenticated
    outcome ← send_shard session_id (keepalive session_id d.client_addr)
    note_sent outcome
    stop

  -- the frames in the order of their tests; a datagram that is none of them goes on
  unfoldable pub handle_frame : Run (Unit {0})
  handle_frame = do
    is_ping ← has_type (eqb d.len ping_frame_len) ping_frame_type
    if is_ping then answer_ping else pure tt
    is_pong ← has_type (eqb d.len pong_frame_len) pong_frame_type
    if is_pong then stop else pure tt
    is_rtt_report ← has_type (eqb d.len rtt_report_frame_len) rtt_report_frame_type
    if is_rtt_report then take_rtt_report else pure tt
    is_resolve ← has_type (ltb session_id_len d.len) resolve_request_frame_type
    if is_resolve then take_resolve_request else pure tt
    if eqb d.len session_id_len then take_keepalive else pure tt
