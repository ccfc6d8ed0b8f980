-- ===== src/Datapath/Receive/ForwardQuiet.antt =====
-- A forwarded packet and the sessions (src/datapath_v2.rs, the receive loop).
use swifttunnel_relay.Prelude.{
  ℕ, ◌+◌, ◌/◌, ◌≡◌, Bool, false, not, ◌||◌, Option, none, some, inl, inr, Option-cases, Bool-cases,
  if◌then◌else◌, ltb, eqb, length, Bytes, bytes_eq, lookup, insert,
}
use swifttunnel_relay.Addr.{Ipv4Addr, SocketAddr}
use swifttunnel_relay.Auth.Mode.{requires_auth}
use swifttunnel_relay.Sessions.{SessionEntry, Sessions, is_authenticated}
use swifttunnel_relay.Budget.Event.{Budgets, allow}
use swifttunnel_relay.DestPolicy.Permits.{DestPolicy}
use swifttunnel_relay.Packet.Reader.{Parse, got, rejected, panicked, read_slice}
use swifttunnel_relay.Packet.Parse.{
  ip_header_min, ParsedPacket, udp, tcp, fragment, forbidden_dst, OriginalPacketInfo,
  parse_ip_packet_full,
}
use swifttunnel_relay.Datapath.Stats.{
  auth, rate_limit, too_small, pool, shard_queue, tcp_disabled, Stats,
}
use swifttunnel_relay.Datapath.Stats
use swifttunnel_relay.Datapath.Relay.{Config, Datagram, client_packet}
use swifttunnel_relay.Datapath.Relay.Step.{◌>>◌, reading, going, crashed}
use swifttunnel_relay.Datapath.Relay.Control.{
  Sent, sent, full, no_shard, count_in, refuse, refuse_unless, send_shard, send_tun, acquire,
  write_buffer,
}
use swifttunnel_relay.Datapath.Relay.Quiet.{
  Allows, At, Quiet, Quiet-bind, Quiet-if, pure-Quiet, refuse_unless-Quiet, acquire-Quiet,
  give_back-Quiet, write_buffer-Quiet,
}
use swifttunnel_relay.Datapath.Receive.{session_id_len}
use swifttunnel_relay.Datapath.Receive.Forward.{
  ip_to_string, count_tcp, count_udp, name_session, tun_packet, forward_fragment, forward_tcp,
  settle, send_payload, send_acquired, forward_udp, parse_packet, charge_budget, is_forbidden,
  charge, forward, handle_packet,
}
use swifttunnel_relay.Datapath.Receive.FrameQuiet.{
  Only, reading-Quiet, count_in-Quiet, send_shard-Quiet, send_tun-Quiet,
}

module _ (cfg : Config) (d : Datagram) (session_id : Bytes) (S : Sessions → Type 0)
    (rename : (s : Sessions) (session : SessionEntry) (ip : Ipv4Addr)
      → lookup session_id s ≡ some session
      → is_authenticated session.auth_state ≡ false
      → S s
      → S (insert session_id (record session { user_id = ip_to_string ip }) s)) where
  name_session-Quiet : (ip : Ipv4Addr) → Quiet (Only S) (name_session cfg d session_id ip)
  unfolding name_session
  name_session-Quiet ip r h = elim (Option-cases (lookup session_id r.sessions)) [
    | inl e ↦ rw (name_session, e) h
    | inr (session, e) ↦ elim (Bool-cases (is_authenticated session.auth_state)) [
      | inl owned ↦ rw (name_session, e, owned) h
      | inr free ↦ rw (name_session, e, free) (rename r.sessions session ip e free h.0, h.1)
    ]
  ]

  tun_or-Quiet :
      (can_tun : Bool) (f : Stats → Stats) (reason : Stats.DropReason) (raw : Bytes) (ip : Ipv4Addr)
      → Quiet (Only S) (
          (if can_tun then send_tun f (tun_packet cfg d session_id raw) else count_in reason)
          >> name_session cfg d session_id ip)
  tun_or-Quiet can_tun f reason raw ip =
      Quiet-bind (Only S)
        (if can_tun then send_tun f (tun_packet cfg d session_id raw) else count_in reason) _
        (Quiet-if (Only S) can_tun _ _
          (send_tun-Quiet cfg d session_id S f (tun_packet cfg d session_id raw))
          (count_in-Quiet cfg d session_id S reason))
        (λ _. name_session-Quiet ip)

  settle-Quiet : (idx : ℕ) (outcome : Sent) → Quiet (Only S) (settle cfg d session_id idx outcome)
  settle-Quiet idx sent r h = h
  settle-Quiet idx full r h = give_back-Quiet (Only S) idx _ h
  settle-Quiet idx no_shard r h = give_back-Quiet (Only S) idx _ h

  send_payload-Quiet :
      (game_addr : SocketAddr) (payload : Bytes) (info : OriginalPacketInfo) (idx : ℕ)
      → Quiet (Only S) (send_payload cfg d session_id game_addr payload info idx)
  unfolding send_payload
  send_payload-Quiet game_addr payload info idx =
      let msg = client_packet session_id d.client_addr game_addr info idx (length payload) d.now in
      Quiet-bind (Only S) (write_buffer idx payload) _ (write_buffer-Quiet (Only S) idx payload)
        λ _.
          Quiet-bind (Only S) (send_shard session_id msg) (settle cfg d session_id idx)
            (send_shard-Quiet cfg d session_id S msg) (settle-Quiet idx)

  send_acquired-Quiet :
      (game_addr : SocketAddr) (payload : Bytes) (info : OriginalPacketInfo) (idx : Option ℕ)
      → Quiet (Only S) (send_acquired cfg d session_id game_addr payload info idx)
  send_acquired-Quiet game_addr payload info none r h = h
  send_acquired-Quiet game_addr payload info (some idx) r h =
      send_payload-Quiet game_addr payload info idx r h

  forward-Quiet : (parsed : ParsedPacket) → Quiet (Only S) (forward cfg d session_id parsed)
  unfolding forward_fragment forward_tcp forward_udp
  forward-Quiet forbidden_dst r h = h
  forward-Quiet (fragment protocol src_ip raw) r h =
      tun_or-Quiet _ (if eqb protocol 6 then count_tcp else count_udp) Stats.fragment raw src_ip r h
  forward-Quiet (tcp info raw) r h =
      tun_or-Quiet cfg.tcp_enabled count_tcp tcp_disabled raw info.src_ip r h
  forward-Quiet (udp game_addr payload info raw) r h =
      Quiet-if (Only S) cfg.tun_udp_enabled _ _
        (Quiet-bind (Only S) (send_tun count_udp (tun_packet cfg d session_id raw)) _
          (send_tun-Quiet cfg d session_id S count_udp (tun_packet cfg d session_id raw))
          (λ _. name_session-Quiet info.src_ip))
        (Quiet-bind (Only S) (name_session cfg d session_id info.src_ip) _
          (name_session-Quiet info.src_ip)
          λ _.
            Quiet-bind (Only S) acquire (send_acquired cfg d session_id game_addr payload info)
              (acquire-Quiet (Only S)) (send_acquired-Quiet game_addr payload info))
        r h

  parse_packet-Quiet : (packet : Bytes) → Quiet (Only S) (parse_packet cfg d session_id packet)
  unfolding parse_packet
  parse_packet-Quiet packet r h = by_result (parse_ip_packet_full r.policy packet)
    where
      by_result :
          (result : Parse (DestPolicy × ParsedPacket))
          → Allows
              (λ _ r'. At (Only S) r')
              (λ r'. At (Only S) r')
              (elim result [
                | panicked ↦ crashed
                | rejected ↦ refuse Stats.parse r
                | got (policy', parsed) ↦ going parsed (record r { policy = policy' })
              ])
      by_result (got (policy', parsed)) = h
      by_result rejected = h
      by_result panicked = tt

  charge_budget-Quiet : (packet : Bytes) → Quiet (Only S) (charge_budget cfg d session_id packet)
  unfolding charge_budget
  charge_budget-Quiet packet r h =
      by_result (allow r.budgets r.sessions session_id false packet (d.mono_ms / 1000))
    where
      by_result :
          (result : Parse (Budgets × Bool))
          → Allows
              (λ _ r'. At (Only S) r')
              (λ r'. At (Only S) r')
              (elim result [
                | panicked ↦ crashed
                | rejected ↦ crashed
                | got (budgets', ok) ↦ going ok (record r { budgets = budgets' })
              ])
      by_result (got (budgets', ok)) = h
      by_result rejected = tt
      by_result panicked = tt

  charge-Quiet :
      (parsed : ParsedPacket) (packet : Bytes)
      → Quiet (Only S) (charge cfg d session_id parsed packet)
  unfolding charge
  charge-Quiet parsed packet =
      Quiet-if (Only S) (is_forbidden cfg d session_id parsed) _ _ (pure-Quiet (Only S) tt) (
        Quiet-bind (Only S) (charge_budget cfg d session_id packet) _ (charge_budget-Quiet packet)
          (λ ok. refuse_unless-Quiet (Only S) ok rate_limit))

  pub handle_packet-Quiet : (known : Bool) → Quiet (Only S) (handle_packet cfg d session_id known)
  unfolding handle_packet
  handle_packet-Quiet known =
      Quiet-bind (Only S) (refuse_unless (not (requires_auth cfg.auth.mode) || known) auth) _
        (refuse_unless-Quiet (Only S) (not (requires_auth cfg.auth.mode) || known) auth)
        λ _.
          Quiet-bind (Only S)
            (refuse_unless (not (ltb d.len (session_id_len + ip_header_min))) too_small) _
            (refuse_unless-Quiet (Only S) (not (ltb d.len (session_id_len + ip_header_min)))
              too_small)
            λ _.
              Quiet-bind (Only S) (reading (read_slice d.buf session_id_len d.len)) _
                (reading-Quiet cfg d session_id S (read_slice d.buf session_id_len d.len))
                λ packet.
                  Quiet-bind (Only S) (parse_packet cfg d session_id packet) _
                    (parse_packet-Quiet packet)
                    λ parsed.
                      Quiet-bind (Only S) (charge cfg d session_id parsed packet) _
                        (charge-Quiet parsed packet) (λ _. forward-Quiet parsed)
