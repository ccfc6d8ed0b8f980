-- ===== src/Datapath/Receive/Forward.antt =====
-- src/datapath_v2.rs, the receive loop: a datagram with an IP packet, to the TUN device or a shard.
use swifttunnel_relay.Prelude.{
  ℕ, ◌+◌, ◌/◌, ◌%◌, Bool, true, false, not, ◌&&◌, ◌||◌, [], ◌∷◌, ◌++◌, Option, none, some,
  if◌then◌else◌, ltb, eqb, length, Bytes, bytes_eq, lookup, insert,
}
use swifttunnel_relay.Addr.{Ipv4Addr, SocketAddr}
use swifttunnel_relay.Auth.Mode.{requires_auth}
use swifttunnel_relay.Sessions.{is_authenticated}
use swifttunnel_relay.Budget.Event.{allow}
use swifttunnel_relay.Packet.Reader.{got, rejected, panicked, read_slice}
use swifttunnel_relay.Packet.Parse.{
  ip_header_min, ParsedPacket, udp, tcp, fragment, OriginalPacketInfo, parse_ip_packet_full,
}
use swifttunnel_relay.Packet.Parse
use swifttunnel_relay.Datapath.Stats.{
  fetch_add, auth, rate_limit, too_small, pool, shard_queue, tcp_disabled, Stats,
}
use swifttunnel_relay.Datapath.Stats
use swifttunnel_relay.Datapath.Relay.{Config, Datagram, client_packet, InboundTunPacket}
use swifttunnel_relay.Datapath.Relay.Step.{Run, going, crashed, ◌>>=◌, ◌>>◌, pure, reading}
use swifttunnel_relay.Datapath.Relay.Control.{
  refuse, refuse_unless, count_in, count_exhausted, acquire, give_back, write_buffer, send_shard,
  Sent, sent, full, no_shard, send_tun,
}
use swifttunnel_relay.Datapath.Receive.{session_id_len}

abbrev digit : ℕ → ℕ
digit n = b'0' + n % 10

-- an octet in decimal
unfoldable pub decimal : ℕ → Bytes
decimal n =
    if ltb n 10
    then digit n ∷ []
    else if ltb n 100
    then digit (n / 10) ∷ digit n ∷ []
    else digit (n / 100) ∷ digit (n / 10) ∷ digit n ∷ []

-- `Ipv4Addr::to_string`
unfoldable pub ip_to_string : Ipv4Addr → Bytes
ip_to_string ip =
    decimal ip.o0 ++ (b'.' ∷ (decimal ip.o1 ++ (b'.' ∷ (decimal ip.o2 ++ (b'.' ∷ decimal ip.o3)))))

abbrev pub count_tcp : Stats → Stats
count_tcp s = record s { tcp_forwarded = fetch_add s.tcp_forwarded 1 }

abbrev pub count_udp : Stats → Stats
count_udp s = record s { tun_udp_forwarded = fetch_add s.tun_udp_forwarded 1 }

module _ (cfg : Config) (d : Datagram) (session_id : Bytes) where
  -- a session without an owner goes by the address that it sends from
  unfoldable pub name_session : Ipv4Addr → Run (Unit {0})
  name_session src_ip r = elim (lookup session_id r.sessions) [
    | none ↦ going tt r
    | some session ↦
        if is_authenticated session.auth_state
        then going tt r
        else going tt (record r {
          sessions =
              insert session_id (record session { user_id = ip_to_string src_ip }) r.sessions;
        })
  ]

  abbrev pub tun_packet : Bytes → InboundTunPacket
  tun_packet raw = record {
    session_id = session_id;
    client_addr = d.client_addr;
    raw_ip_packet = raw;
  }

  unfoldable pub forward_fragment : ℕ → Ipv4Addr → Bytes → Run (Unit {0})
  forward_fragment protocol src_ip raw = do
    let can_tun = (eqb protocol 17 && cfg.tun_udp_enabled) || (eqb protocol 6 && cfg.tcp_enabled)
    if can_tun
        then send_tun (if eqb protocol 6 then count_tcp else count_udp) (tun_packet raw)
        else count_in Stats.fragment
    name_session src_ip

  unfoldable pub forward_tcp : OriginalPacketInfo → Bytes → Run (Unit {0})
  forward_tcp info raw = do
    if cfg.tcp_enabled then send_tun count_tcp (tun_packet raw) else count_in tcp_disabled
    name_session info.src_ip

  -- a payload that no shard takes is dropped
  abbrev pub settle : ℕ → Sent → Run (Unit {0})
  settle idx sent = pure tt
  settle idx full = do count_in shard_queue; give_back idx
  settle idx no_shard = do count_in shard_queue; give_back idx

  -- a payload in a buffer of the pool, for the session's shard
  unfoldable pub send_payload : SocketAddr → Bytes → OriginalPacketInfo → ℕ → Run (Unit {0})
  send_payload game_addr payload info idx = do
    write_buffer idx payload
    outcome ←
        send_shard session_id
          (client_packet session_id d.client_addr game_addr info idx (length payload) d.now)
    settle idx outcome

  abbrev pub send_acquired : SocketAddr → Bytes → OriginalPacketInfo → Option ℕ → Run (Unit {0})
  send_acquired game_addr payload info none = do count_in pool; count_exhausted
  send_acquired game_addr payload info (some idx) = send_payload game_addr payload info idx

  unfoldable pub forward_udp : SocketAddr → Bytes → OriginalPacketInfo → Bytes → Run (Unit {0})
  forward_udp game_addr payload info raw =
      if cfg.tun_udp_enabled
      then (do send_tun count_udp (tun_packet raw); name_session info.src_ip)
      else (do
        name_session info.src_ip
        payload_idx ← acquire
        send_acquired game_addr payload info payload_idx)

  -- `super::parse_ip_packet_full(ip_packet)`, which may count in the policy
  unfoldable pub parse_packet : Bytes → Run ParsedPacket
  parse_packet ip_packet r = elim (parse_ip_packet_full r.policy ip_packet) [
    | panicked ↦ crashed
    | rejected ↦ refuse Stats.parse r
    | got (policy', parsed) ↦ going parsed (record r { policy = policy' })
  ]

  -- `super::account_budget::allow(&sessions_rx, session_id, false, ip_packet)`
  unfoldable pub charge_budget : Bytes → Run Bool
  charge_budget ip_packet r =
      elim (allow r.budgets r.sessions session_id false ip_packet (d.mono_ms / 1000)) [
        | panicked ↦ crashed
        | rejected ↦ crashed
        | got (budgets', ok) ↦ going ok (record r { budgets = budgets' })
      ]

  abbrev pub is_forbidden : ParsedPacket → Bool
  is_forbidden Parse.forbidden_dst = true
  is_forbidden _ = false

  unfoldable pub charge : ParsedPacket → Bytes → Run (Unit {0})
  charge parsed ip_packet =
      if is_forbidden parsed
      then pure tt
      else (do ok ← charge_budget ip_packet; refuse_unless ok rate_limit)

  abbrev pub forward : ParsedPacket → Run (Unit {0})
  forward Parse.forbidden_dst = refuse Stats.forbidden_dst
  forward (fragment protocol src_ip raw) = forward_fragment protocol src_ip raw
  forward (tcp info raw) = forward_tcp info raw
  forward (udp game_addr payload info raw) = forward_udp game_addr payload info raw

  unfoldable pub handle_packet : Bool → Run (Unit {0})
  handle_packet session_authenticated = do
    refuse_unless (not (requires_auth cfg.auth.mode) || session_authenticated) auth
    refuse_unless (not (ltb d.len (session_id_len + ip_header_min))) too_small
    ip_packet ← reading (read_slice d.buf session_id_len d.len)
    parsed ← parse_packet ip_packet
    charge parsed ip_packet
    forward parsed
