-- ===== src/Datapath/Receive.antt =====
-- src/datapath_v2.rs, the receive loop: what one datagram does to the relay, up to the frame it holds.
pub mod Frames
pub mod Forward
pub mod Loop
pub mod Buffer
pub mod Stages
pub mod Hello
pub mod FrameKeeps
pub mod ForwardKeeps
pub mod Invariant
pub mod Identify
pub mod Touch
pub mod Authority
pub mod FrameQuiet
pub mod ForwardQuiet
pub mod Ownership
pub mod Delivery
use swifttunnel_relay.Prelude.{
  ℕ, ◌+◌, Bool, true, false, not, ◌&&◌, ◌||◌, List, [], ◌∷◌, ◌++◌, Option, none, some,
  if◌then◌else◌, leb, eqb, ◌==◌, is_some_and, length, Bytes, bytes_eq, text, Assoc, lookup, insert,
  contains_key,
}
use swifttunnel_relay.Addr.{SocketAddr, socket_eq}
use swifttunnel_relay.Auth.Mode.{
  off, RelayAuthMode, requires_auth, Verified, ok, err, RelayAuthVerifyError, bad_format,
  ack_status,
}
use swifttunnel_relay.Auth.Frame.{parse_auth_hello_token}
use swifttunnel_relay.Auth.Ticket.{VerifiedRelayTicket, verify_relay_ticket_once, session_hex}
use swifttunnel_relay.RateLimit.Window.{new_session}
use swifttunnel_relay.RateLimit.Limiter.{max_sessions_total}
use swifttunnel_relay.Sessions.{
  SessionEntry, Sessions, legacy, authenticated, is_authenticated, session_auth_is_current,
  authenticated_session_source_allowed,
}
use swifttunnel_relay.Sessions.Counts.{
  source_session_count, increment_source_session_count, update_source_session_count_for_rebind,
}
use swifttunnel_relay.Packet.Reader.{read}
use swifttunnel_relay.Datapath.Stats.{fetch_add, auth, rate_limit, capacity, record_session_ingress}
use swifttunnel_relay.Datapath.Relay.{Relay, Config, Datagram}
use swifttunnel_relay.Datapath.Relay.Step.{
  Run, going, crashed, ◌>>=◌, ◌>>◌, pure, modify, stop, reading,
}
use swifttunnel_relay.Datapath.Relay.Control.{
  with_stats, refuse, continue_unless, refuse_unless, send_small_control_frame, allow_source_event,
  allow_pending,
}

-- SESSION_ID_LEN and the other constants of the frames
abbrev pub session_id_len : ℕ
session_id_len = 8

abbrev pub auth_hello_frame_type : ℕ
auth_hello_frame_type = 0xA1

abbrev pub auth_ack_frame_type : ℕ
auth_ack_frame_type = 0xA2

abbrev pub auth_ack_ok : ℕ
auth_ack_ok = 0

abbrev pub auth_ack_auth_disabled : ℕ
auth_ack_auth_disabled = 6

abbrev pub auth_ack_owner_mismatch : ℕ
auth_ack_owner_mismatch = 8

abbrev pub auth_ack_reauth_required : ℕ
auth_ack_reauth_required = 9

abbrev pub max_sessions_per_src_ip : ℕ
max_sessions_per_src_ip = 512

abbrev is_none : {A : Type 0} → Option A → Bool
is_none none = true
is_none (some a) = false

-- `auth_config_rx.mode == RelayAuthMode::Off`
abbrev pub is_off : RelayAuthMode → Bool
is_off off = true
is_off _ = false

unfoldable pub derive_user_id : Bytes → Bytes
derive_user_id session_id = text "session-" ++ session_hex session_id

-- the counters of the first lines
unfoldable pub count_datagram : Datagram → Run (Unit {0})
count_datagram d = modify (
    with_stats λ s. record s {
      packets_in = fetch_add s.packets_in 1;
      bytes_in = fetch_add s.bytes_in d.len;
    })

unfoldable pub is_auth_hello : Datagram → Run Bool
is_auth_hello d =
    if leb (session_id_len + 3) d.len
    then (do
      frame_type ← reading (read d.buf session_id_len)
      pure (eqb frame_type auth_hello_frame_type))
    else pure false

module _ (cfg : Config) (d : Datagram) (session_id : Bytes) where
  abbrev pub send_ack : ℕ → Run (Unit {0})
  send_ack status =
      send_small_control_frame d.client_addr session_id auth_ack_frame_type status d.later

  -- `parse_auth_hello_token(..).and_then(|token| verify_relay_ticket_once(..))`
  unfoldable pub read_ticket : Run (Verified VerifiedRelayTicket)
  read_ticket r = elim (parse_auth_hello_token d.buf d.len) [
    | none ↦ crashed
    | some (err e) ↦ going (err e) r
    | some (ok token) ↦
        let (replay', result) =
          verify_relay_ticket_once cfg.crates token session_id cfg.auth d.now_unix r.replay in
        going result (record r { replay = replay' })
  ]

  -- a ticket that is refused is answered at once
  abbrev pub accept_ticket : Verified VerifiedRelayTicket → Run (Option VerifiedRelayTicket)
  accept_ticket (ok ticket) = pure (some ticket)
  accept_ticket (err e) = do send_ack (ack_status e); stop

  -- `verified_ticket`
  unfoldable pub verify_hello : Bool → Run (Option VerifiedRelayTicket)
  verify_hello is_hello =
      if requires_auth cfg.auth.mode && is_hello
      then (do
        allowed ← allow_pending cfg d
        refuse_unless allowed rate_limit
        result ← read_ticket
        accept_ticket result)
      else pure none

  abbrev pub send_if : Bool → ℕ → Run (Unit {0})
  send_if true status = send_ack status
  send_if false status = pure tt

  -- A datagram from another address than the session's is told to authenticate again.
  unfoldable pub is_elsewhere : Option VerifiedRelayTicket → Sessions → Bool
  is_elsewhere ticket sessions =
      requires_auth cfg.auth.mode
      && (is_none ticket
          && is_some_and (lookup session_id sessions) (λ s. not (s.client_addr == d.client_addr)))

  unfoldable pub challenge : Option VerifiedRelayTicket → Run (Unit {0})
  challenge ticket r =
      if is_elsewhere ticket r.sessions
      then (do allowed ← allow_pending cfg d; send_if allowed auth_ack_reauth_required) r
      else going tt r

  -- the session is current and this is its address
  unfoldable pub may_send : SessionEntry → Bool
  may_send session =
      session_auth_is_current session d.now_unix
      && authenticated_session_source_allowed session true d.client_addr false

  unfoldable pub lacks_authority : Option VerifiedRelayTicket → Sessions → Bool
  lacks_authority ticket sessions =
      requires_auth cfg.auth.mode
      && (is_none ticket && not (is_some_and (lookup session_id sessions) may_send))

  unfoldable pub require_authority : Option VerifiedRelayTicket → Run (Unit {0})
  require_authority ticket r =
      if lacks_authority ticket r.sessions then refuse auth r else going tt r

  unfoldable pub admit_session : Run (Unit {0})
  admit_session r =
      if contains_key session_id r.sessions
      then going tt r
      else if leb max_sessions_total (length r.sessions)
      then refuse capacity r
      else if leb max_sessions_per_src_ip (source_session_count r.counts d.client_addr.ip)
      then refuse capacity r
      else (do
        allowed ← allow_source_event d.client_addr new_session d.now
        continue_unless allowed)
          r

  -- a session that a packet from its own address keeps alive, or that is not owned
  unfoldable pub renew : SessionEntry → SessionEntry
  renew session = record session {
    client_addr = d.client_addr;
    last_activity = d.now;
    last_activity_unix = d.now_unix;
  }

  -- the session with another value, counted where it now is
  abbrev pub rebind : SessionEntry → SessionEntry → Relay → Relay
  rebind session session' r = record r {
    counts =
        update_source_session_count_for_rebind r.counts session.client_addr.ip d.client_addr.ip;
    sessions = insert session_id session' r.sessions;
  }

  unfoldable pub new_entry : SessionEntry
  new_entry = record {
    user_id = derive_user_id session_id;
    auth_state = legacy;
    lease_expires_at_unix = none;
    client_addr = d.client_addr;
    created_at_unix = d.now_unix;
    last_activity = d.now;
    last_activity_unix = d.now_unix;
  }

  -- `sessions_rx.entry(session_id)`: whether the session is authenticated and takes this source
  unfoldable pub touch_session : Bool → Run (Bool × Bool)
  touch_session is_hello r = elim (lookup session_id r.sessions) [
    | some session ↦
        let required = requires_auth cfg.auth.mode in
        going
          (
            session_auth_is_current session d.now_unix,
            authenticated_session_source_allowed session required d.client_addr is_hello,
          )
          (if not required || (not is_hello && session.client_addr == d.client_addr)
            then rebind session (renew session) r
            else r)
    | none ↦
        going (false, true)
          (with_stats (λ s. record s { active_sessions = fetch_add s.active_sessions 1 })
            (record r {
              sessions = insert session_id new_entry r.sessions;
              counts = increment_source_session_count r.counts d.client_addr.ip;
            }))
  ]

  unfoldable pub count_ingress : Run (Unit {0})
  count_ingress =
      modify
        λ r. record r { traffic = record_session_ingress r.traffic session_id d.now_unix d.len }

  -- the session as its ticket has it
  unfoldable pub bind_entry : VerifiedRelayTicket → SessionEntry → SessionEntry
  bind_entry ticket session = record session {
    user_id = ticket.user_id;
    auth_state = authenticated;
    lease_expires_at_unix = if ticket.lease then some ticket.exp else none;
    client_addr = d.client_addr;
    last_activity = d.now;
    last_activity_unix = d.now_unix;
  }

  -- the session belongs to another user than the ticket's
  unfoldable pub owner_conflict : VerifiedRelayTicket → SessionEntry → Bool
  owner_conflict ticket existing =
      is_authenticated existing.auth_state && not (existing.user_id == ticket.user_id)

  abbrev pub conflicts : VerifiedRelayTicket → Sessions → Bool
  conflicts ticket sessions = is_some_and (lookup session_id sessions) (owner_conflict ticket)

  unfoldable pub bind_session : VerifiedRelayTicket → Run (Unit {0})
  bind_session ticket r = elim (lookup session_id r.sessions) [
    | none ↦ going tt r
    | some session ↦ going tt (rebind session (bind_entry ticket session) r)
  ]

  unfoldable pub take_over : VerifiedRelayTicket → Run (Unit {0})
  take_over ticket r =
      if conflicts ticket r.sessions
      then (do send_ack auth_ack_owner_mismatch; stop) r
      else (do bind_session ticket; send_ack auth_ack_ok; stop) r

  -- a ticket, or `BadFormat`
  abbrev pub take_ticket : Option VerifiedRelayTicket → Run (Unit {0})
  take_ticket (some ticket) = take_over ticket
  take_ticket none = do send_ack (ack_status bad_format); stop

  -- the hello frame
  unfoldable pub handle_hello : Option VerifiedRelayTicket → Run (Unit {0})
  handle_hello ticket =
      if is_off cfg.auth.mode
      then (do send_ack auth_ack_auth_disabled; stop)
      else take_ticket ticket
