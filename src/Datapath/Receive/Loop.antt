-- ===== src/Datapath/Receive/Loop.antt =====
-- src/datapath_v2.rs, the receive loop: one round of it, from `recv_from` to the next.
use swifttunnel_relay.Prelude.{Bool, not, Option, none, some, ltb, Bytes, if◌then◌else◌}
use swifttunnel_relay.Packet.Reader.{read_slice}
use swifttunnel_relay.RateLimit.Window.{packet}
use swifttunnel_relay.Datapath.Stats.{auth, too_small}
use swifttunnel_relay.Datapath.Relay.{Relay, Config, Datagram}
use swifttunnel_relay.Datapath.Relay.Step.{
  Step, Run, going, done, crashed, ◌>>=◌, ◌>>◌, pure, reading,
}
use swifttunnel_relay.Datapath.Relay.Control.{allow_source_event, continue_unless, refuse_unless}
use swifttunnel_relay.Datapath.Receive.{
  session_id_len, count_datagram, is_auth_hello, verify_hello, challenge, require_authority,
  admit_session, touch_session, count_ingress, handle_hello,
}
use swifttunnel_relay.Auth.Ticket.{VerifiedRelayTicket}
use swifttunnel_relay.Datapath.Receive.Frames.{handle_frame}
use swifttunnel_relay.Datapath.Receive.Forward.{handle_packet}

abbrev pub outcome : Step (Unit {0}) → Option Relay
outcome (going u r) = some r
outcome (done r) = some r
outcome crashed = none

module _ (cfg : Config) (d : Datagram) where
  -- what a datagram that may be in the session goes through
  unfoldable pub serve : Bytes → Bool → Option VerifiedRelayTicket → Run (Unit {0})
  serve session_id is_hello ticket = do
    allowed ← allow_source_event d.client_addr packet d.now
    continue_unless allowed
    admit_session cfg d session_id
    (session_authenticated, session_source_allowed) ← touch_session cfg d session_id is_hello
    count_ingress cfg d session_id
    if is_hello then handle_hello cfg d session_id ticket else pure tt
    refuse_unless session_source_allowed auth
    handle_frame cfg d session_id session_authenticated
    handle_packet cfg d session_id session_authenticated

  -- who sends: the ticket of a hello, or the session's own address
  unfoldable pub identify : Bytes → Bool → Run (Option VerifiedRelayTicket)
  identify session_id is_hello = do
    ticket ← verify_hello cfg d session_id is_hello
    challenge cfg d session_id ticket
    require_authority cfg d session_id ticket
    pure ticket

  unfoldable pub handle : Run (Unit {0})
  handle = do
    count_datagram d
    refuse_unless (not (ltb d.len session_id_len)) too_small
    session_id ← reading (read_slice d.buf 0 session_id_len)
    is_hello ← is_auth_hello d
    ticket ← identify session_id is_hello
    serve session_id is_hello ticket

  -- One round; a panic, and a wait that does not end, is `none`.
  unfoldable pub receive : Relay → Option Relay
  receive r = outcome (handle r)
