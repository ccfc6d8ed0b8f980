-- ===== src/Datapath/Transmit.antt =====
-- src/datapath_v2.rs, `send_tx_packet`: a queued packet on its way to the socket.
pub mod Routes
use swifttunnel_relay.Prelude.{
  ℕ, ◌/◌, Bool, true, false, Option, none, some, if◌then◌else◌, Bytes, slice, bytes_eq, lookup,
  insert,
}
use swifttunnel_relay.Addr.{SocketAddr}
use swifttunnel_relay.Sessions.{forwarding_addr}
use swifttunnel_relay.Budget.Event.{allow}
use swifttunnel_relay.Packet.Reader.{got, rejected, panicked}
use swifttunnel_relay.Datapath.Stats.{
  fetch_add, DropReason, auth, rate_limit, stale_queue, socket_send, SessionTraffic,
}
use swifttunnel_relay.Datapath.Relay.{
  Relay, TxPacket, QueuedPacketKind, is_data, should_drop_stale_queued_packet,
}
use swifttunnel_relay.Datapath.Relay.Step.{
  Step, Run, going, done, crashed, ◌>>=◌, ◌>>◌, pure, modify, stop,
}
use swifttunnel_relay.Datapath.Relay.Control.{with_stats, count_out, give_back}

-- SESSION_ID_LEN
abbrev pub session_id_len : ℕ
session_id_len = 8

-- The clocks that are read, whether tickets are required, and which sends the socket takes.
pub record Sending : Type 0 where
  pub auth_required : Bool
  pub now : ℕ
  pub now_unix : ℕ
  pub mono_ms : ℕ
  pub accepts : SocketAddr → Bytes → Bool

-- what is handed to the socket
abbrev pub Handed : Type 0
Handed = Option (SocketAddr × Bytes)

module _ (s : Sending) (packet : TxPacket) where
  -- a packet that is not sent gives its buffer back
  unfoldable pub abandon : DropReason → Run Handed
  abandon reason = do count_out reason; give_back packet.buf_idx; pure none

  -- `account_budget::allow(sessions, packet.session_id, true, &bytes[SESSION_ID_LEN..packet.len])`
  unfoldable pub charge_out : Run Bool
  charge_out r = elim (slice (r.buffers packet.buf_idx) session_id_len packet.len) [
    | none ↦ crashed
    | some inner ↦
        elim (allow r.budgets r.sessions packet.session_id true inner (s.mono_ms / 1000)) [
          | rejected ↦ crashed
          | panicked ↦ crashed
          | got (budgets', ok) ↦ going ok (record r { budgets = budgets' })
        ]
  ]

  abbrev pub charge : Run Bool
  charge = if is_data packet.kind then charge_out else pure true

  -- the session's counters for a packet that is sent
  unfoldable pub record_egress : Relay → Relay
  record_egress r = elim (lookup packet.session_id r.traffic) [
    | none ↦ r
    | some traffic ↦ record r {
      traffic =
          insert packet.session_id
            (record traffic {
              bytes_out = fetch_add traffic.bytes_out packet.len;
              packets_out = fetch_add traffic.packets_out 1;
              last_activity_unix = s.now_unix;
            })
            r.traffic;
    }
  ]

  unfoldable pub count_sent : Run (Unit {0})
  count_sent = modify λ r. record_egress (
      with_stats
        (λ st. record st {
          packets_out = fetch_add st.packets_out 1;
          bytes_out = fetch_add st.bytes_out packet.len;
        })
        r)

  -- `socket.send_to(&bytes[..packet.len], packet.addr)`, and the buffer is given back
  unfoldable pub send_to : SocketAddr → Option Bytes → Run Handed
  send_to addr none r = crashed
  send_to addr (some bytes) r =
      (do
        if s.accepts addr bytes then count_sent else count_out socket_send
        give_back packet.buf_idx
        pure (some (addr, bytes)))
        r

  abbrev pub send_charged : SocketAddr → Bool → Run Handed
  send_charged addr false r = abandon rate_limit r
  send_charged addr true r = send_to addr (slice (r.buffers packet.buf_idx) 0 packet.len) r

  unfoldable pub charge_and_send : SocketAddr → Run Handed
  charge_and_send addr = do ok ← charge; send_charged addr ok

  -- data goes to the session's address at this moment
  unfoldable pub route : Run Handed
  route r =
      if is_data packet.kind
      then (elim (forwarding_addr r.sessions packet.session_id s.auth_required s.now_unix) [
        | none ↦ abandon auth r
        | some addr ↦ charge_and_send addr r
      ])
      else charge_and_send packet.addr r

  unfoldable pub send_tx_packet : Run Handed
  send_tx_packet =
      if should_drop_stale_queued_packet packet.kind packet.enqueued_at s.now
      then abandon stale_queue
      else route

abbrev pub finished : Step Handed → Option (Relay × Handed)
finished (going handed r) = some (r, handed)
finished (done r) = some (r, none)
finished crashed = none

-- the state after, and what was handed to the socket; a panic, and a wait that does not end, is `none`
unfoldable pub transmit : Sending → TxPacket → Relay → Option (Relay × Handed)
transmit s packet r = finished (send_tx_packet s packet r)
