-- ===== src/Datapath/Respond.antt =====
-- src/datapath_v2.rs, `run_shard`: one answer of a game server, from a flow's socket to the transmit
-- queue. What `recv_flow_response` gives is a parameter.
pub mod Covered
pub mod Queues
use swifttunnel_relay.Prelude.{
  ℕ, ◌+◌, Bool, true, false, ◌++◌, Option, none, some, if◌then◌else◌, is_some_and, unwrap_or, take,
  drop, Bytes, bytes_eq, lookup, insert,
}
use swifttunnel_relay.Addr.{SocketAddr}
use swifttunnel_relay.Sessions.{SessionEntry, Sessions, session_lease_is_current}
use swifttunnel_relay.Packet.Parse.{OriginalPacketInfo}
use swifttunnel_relay.Packet.Response.{write_response_ip_packet_into_with_tos}
use swifttunnel_relay.Datapath.Stats.{pool, tx_queue}
use swifttunnel_relay.Datapath.Relay.{Relay, TxPacket, queued_data, try_send}
use swifttunnel_relay.Datapath.Relay.Step.{
  Step, Run, going, done, crashed, ◌>>=◌, ◌>>◌, pure, modify,
}
use swifttunnel_relay.Datapath.Relay.Control.{
  count_out, count_exhausted, acquire, give_back, write_buffer,
}

-- SESSION_ID_LEN
abbrev pub session_id_len : ℕ
session_id_len = 8

-- `FlowKey` and `FlowState`; the socket is the operating system's
pub record Flow : Type 0 where
  pub session_id : Bytes
  pub game_addr : SocketAddr
  pub client_addr : SocketAddr
  pub original_info : OriginalPacketInfo
  pub last_activity : ℕ
  pub marked_for_removal : Option ℕ
  pub token : ℕ

-- what was received, and the clocks that are read then
pub record Answer : Type 0 where
  pub payload : Bytes
  pub response_tos : Option ℕ
  pub received_at : ℕ
  pub now_unix : ℕ

-- `lease_current`
unfoldable pub is_covered : Bytes → ℕ → Sessions → Bool
is_covered session_id now_unix sessions =
    is_some_and (lookup session_id sessions) (λ session. session_lease_is_current session now_unix)

module _ (flow : Flow) (answer : Answer) where
  unfoldable pub refresh_flow : Flow
  refresh_flow = record flow { last_activity = answer.received_at; marked_for_removal = none }

  abbrev pub refreshed : SessionEntry → SessionEntry
  refreshed session = record session {
    last_activity = answer.received_at;
    last_activity_unix = answer.now_unix;
  }

  unfoldable pub refresh_session : Run (Unit {0})
  refresh_session r = elim (lookup flow.session_id r.sessions) [
    | none ↦ going tt r
    | some session ↦
        going tt (record r { sessions = insert flow.session_id (refreshed session) r.sessions })
  ]

  -- `tx_data.try_send(packet)`, and what is done where it fails
  unfoldable pub send_data : TxPacket → Run (Unit {0})
  send_data packet r = elim (try_send r.tx_data packet) [
    | some tx' ↦ going tt (record r { tx_data = tx' })
    | none ↦ (do count_out tx_queue; give_back packet.buf_idx) r
  ]

  -- the frame is written into the buffer and queued; whether the burst goes on. Where no frame can be
  -- written the buffer is free again, and the identifier that the code has put there is left out.
  unfoldable pub deliver : ℕ → Run Bool
  deliver idx r =
      elim (write_response_ip_packet_into_with_tos (drop session_id_len (r.buffers idx))
        answer.payload flow.original_info (unwrap_or answer.response_tos flow.original_info.tos)) [
          | none ↦ (do give_back idx; pure false) r
          | some (out, ip_len) ↦
              (do
                write_buffer idx (flow.session_id ++ take ip_len out)
                send_data (record {
                  addr = flow.client_addr;
                  session_id = flow.session_id;
                  buf_idx = idx;
                  len = session_id_len + ip_len;
                  enqueued_at = answer.received_at;
                  kind = queued_data;
                })
                pure true)
                r
        ]

  abbrev pub deliver_in : Option ℕ → Run Bool
  deliver_in none = do count_out pool; count_exhausted; pure false
  deliver_in (some idx) = deliver idx

  unfoldable pub carry : Run Bool
  carry = do refresh_session; buf_idx ← acquire; deliver_in buf_idx

  -- the flow after the answer, and whether the burst goes on
  unfoldable pub respond : Run (Flow × Bool)
  respond r =
      if is_covered flow.session_id answer.now_unix r.sessions
      then (do more ← carry; pure (refresh_flow, more)) r
      else going (flow, false) r

  abbrev pub responded : Step (Flow × Bool) → Option (Relay × (Flow × Bool))
  responded (going result r) = some (r, result)
  responded (done r) = some (r, (flow, false))
  responded crashed = none
