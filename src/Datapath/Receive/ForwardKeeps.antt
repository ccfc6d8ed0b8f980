-- ===== src/Datapath/Receive/ForwardKeeps.antt =====
-- A forwarded packet and the invariant of the shared state (src/datapath_v2.rs, the receive loop).
use swifttunnel_relay.Prelude.{
  ℕ, ◌+◌, ◌/◌, ◌<◌, ◌≤◌, refl, arith, ap, Bool, false, not, ◌||◌, Option, none, some, inl, inr,
  Option-cases, Bool-cases, if◌then◌else◌, ltb, eqb, length, Bytes, bytes_eq, lookup, List, ◌∷◌,
}
use swifttunnel_relay.Addr.{Ipv4Addr, SocketAddr}
use swifttunnel_relay.Auth.Mode.{requires_auth}
use swifttunnel_relay.Sessions.{SessionEntry, Sessions, is_authenticated}
use swifttunnel_relay.DestPolicy.Permits.{DestPolicy}
use swifttunnel_relay.Budget.Event.Charge.{Charged, allow-Charged}
use swifttunnel_relay.Budget.Event.{Budgets, allow}
use swifttunnel_relay.Packet.Reader.{Parse, got, rejected, panicked, Gives}
use swifttunnel_relay.Packet.Parse.{
  ip_header_min, ParsedPacket, udp, tcp, fragment, forbidden_dst, OriginalPacketInfo,
  parse_ip_packet_full,
}
use swifttunnel_relay.Packet.Parse.Sound.{IsVerdict, parse_lem}
use swifttunnel_relay.Datapath.Stats.{
  auth, rate_limit, too_small, pool, shard_queue, tcp_disabled, Stats,
}
use swifttunnel_relay.Datapath.Stats
use swifttunnel_relay.Datapath.Stats.Drops
use swifttunnel_relay.Datapath.Relay.{
  Relay, Config, Datagram, client_packet, max_packet_size, ShardMsg,
}
use swifttunnel_relay.Datapath.Relay.Step.{going, crashed, ◌>>◌, Leaves, Leaves-after}
use swifttunnel_relay.Datapath.Relay.Control.{
  Sent, sent, full, no_shard, send_tun, count_in, refuse, refuse_unless, acquire, write_buffer,
  send_shard,
}
use swifttunnel_relay.Datapath.Relay.Sound.{Holds}
use swifttunnel_relay.Datapath.Relay.Registry.{update-IsRegistry, insert-OwnersKept}
use swifttunnel_relay.Datapath.Relay.Sends.{AfterSend, send_shard-AfterSend, send_tun-Keeps}
use swifttunnel_relay.Datapath.Relay.Keeps.{
  Keeps, Keeps-bind, Keeps-if, pure-Keeps, refuse-Keeps, refuse_unless-Keeps, count_in-Keeps,
  none_left_in-Keeps, InHand, acquire-InHand, give_back-Leaves, write_buffer-Leaves,
}
use swifttunnel_relay.Datapath.Receive.Buffer.{IsReceived, slice-Keeps, refuse_if-Keeps}
use swifttunnel_relay.Datapath.Receive.{session_id_len}
use swifttunnel_relay.Datapath.Receive.Forward.{
  ip_to_string, count_tcp, count_udp, name_session, tun_packet, forward_fragment, forward_tcp,
  settle, send_payload, send_acquired, forward_udp, parse_packet, charge_budget, is_forbidden,
  charge, forward, handle_packet,
}

-- A parsed packet whose payload fits a buffer.
abbrev pub Fits : ParsedPacket → Type 0
Fits (udp game_addr payload info raw) = length payload ≤ max_packet_size
Fits (tcp info raw) = Unit
Fits (fragment protocol src_ip raw) = Unit
Fits forbidden_dst = Unit

module _ (before : Sessions) (held : List ℕ) (cfg : Config) (d : Datagram)
    (session_id : Bytes) where
  name_session-Keeps :
      (src_ip : Ipv4Addr) → Keeps before held (name_session cfg d session_id src_ip)
  unfolding name_session
  name_session-Keeps src_ip r (own, (reg, lim, bud, tot, buf)) =
      elim (Option-cases (lookup session_id r.sessions)) [
        | inl e ↦ rw (name_session, e) (own, (reg, lim, bud, tot, buf))
        | inr (session, e) ↦
            let named : SessionEntry = record session { user_id = ip_to_string src_ip } in
            elim (Bool-cases (is_authenticated session.auth_state)) [
              | inl owned ↦ rw (name_session, e, owned) (own, (reg, lim, bud, tot, buf))
              | inr free ↦
                  rw (name_session, e, free)
                    (
                      insert-OwnersKept before r.sessions session_id session named e (inl free) own,
                      (
                        update-IsRegistry r.sessions r.counts session_id session named e refl reg,
                        lim,
                        bud,
                        tot,
                        buf,
                      ),
                    )
            ]
      ]

  -- a packet to the TUN device, or a drop, and the session's name
  tun_or-Keeps :
      (can_tun : Bool) (forwarded : Stats → Stats) (reason : Stats.DropReason) (raw : Bytes)
      (ip : Ipv4Addr)
      → ((s : Stats) → Drops.AreTotalled s → Drops.AreTotalled (forwarded s))
      → Keeps before held (
          (if can_tun
            then send_tun forwarded (tun_packet cfg d session_id raw)
            else count_in reason)
          >> name_session cfg d session_id ip)
  tun_or-Keeps can_tun forwarded reason raw ip k =
      Keeps-bind before held (if can_tun then _ else count_in reason) _
        (Keeps-if before held can_tun (send_tun forwarded (tun_packet cfg d session_id raw)) _
          (send_tun-Keeps before held forwarded _ k) (count_in-Keeps before held reason))
        (λ _. name_session-Keeps ip)

  pub forward_fragment-Keeps :
      (protocol : ℕ) (src_ip : Ipv4Addr) (raw : Bytes)
      → Keeps before held (forward_fragment cfg d session_id protocol src_ip raw)
  unfolding forward_fragment
  forward_fragment-Keeps protocol src_ip raw = elim (Bool-cases (eqb protocol 6)) [
    | inl e ↦
        rw (forward_fragment, e) (tun_or-Keeps _ count_tcp Stats.fragment raw src_ip (λ s t. t))
    | inr e ↦
        rw (forward_fragment, e) (tun_or-Keeps _ count_udp Stats.fragment raw src_ip (λ s t. t))
  ]

  pub forward_tcp-Keeps :
      (info : OriginalPacketInfo) (raw : Bytes)
      → Keeps before held (forward_tcp cfg d session_id info raw)
  unfolding forward_tcp
  forward_tcp-Keeps info raw =
      tun_or-Keeps cfg.tcp_enabled count_tcp tcp_disabled raw info.src_ip (λ s t. t)

  abbrev payload_msg : SocketAddr → Bytes → OriginalPacketInfo → ℕ → ShardMsg
  payload_msg game_addr payload info idx =
      client_packet session_id d.client_addr game_addr info idx (length payload) d.now

  settle-Leaves :
      (game_addr : SocketAddr) (payload : Bytes) (info : OriginalPacketInfo) (idx : ℕ)
      (outcome : Sent) (r : Relay)
      → idx < r.pool.slots
      → AfterSend before held (payload_msg game_addr payload info idx) outcome r
      → Leaves
          (λ _ r'. Holds before held r')
          (λ r'. Holds before held r')
          (settle cfg d session_id idx outcome r)
  settle-Leaves game_addr payload info idx sent r small h = h
  settle-Leaves game_addr payload info idx full r small h =
      give_back-Leaves before held idx _ small (count_in-Keeps before (idx ∷ held) shard_queue r h)
  settle-Leaves game_addr payload info idx no_shard r small h =
      give_back-Leaves before held idx _ small (count_in-Keeps before (idx ∷ held) shard_queue r h)

  send_payload-Leaves :
      (game_addr : SocketAddr) (payload : Bytes) (info : OriginalPacketInfo) (idx : ℕ) (r : Relay)
      → length payload ≤ max_packet_size
      → idx < r.pool.slots
      → Holds before (idx ∷ held) r
      → Leaves
          (λ _ r'. Holds before held r')
          (λ r'. Holds before held r')
          (send_payload cfg d session_id game_addr payload info idx r)
  unfolding send_payload
  send_payload-Leaves game_addr payload info idx r fits small h =
      Leaves-after _ _ _ (write_buffer idx payload r) _
        (write_buffer-Leaves before held idx payload r fits small h)
        λ _ r' (small', h').
          Leaves-after _ _ _ (send_shard session_id (payload_msg game_addr payload info idx) r')
            (settle cfg d session_id idx)
            (send_shard-AfterSend before held session_id (payload_msg game_addr payload info idx) r'
              h')
            λ outcome r'' (same, h'').
              settle-Leaves game_addr payload info idx outcome r'' (omega (arith, same, small')) h''

  send_acquired-Leaves :
      (game_addr : SocketAddr) (payload : Bytes) (info : OriginalPacketInfo)
      → length payload ≤ max_packet_size
      → (idx : Option ℕ) (r : Relay) → InHand before held idx r
      → Leaves
          (λ _ r'. Holds before held r')
          (λ r'. Holds before held r')
          (send_acquired cfg d session_id game_addr payload info idx r)
  send_acquired-Leaves game_addr payload info fits none r h = none_left_in-Keeps before held r h
  send_acquired-Leaves game_addr payload info fits (some idx) r (small, h) =
      send_payload-Leaves game_addr payload info idx r fits small h

  forward_udp-Keeps :
      (game_addr : SocketAddr) (payload : Bytes) (info : OriginalPacketInfo) (raw : Bytes)
      → length payload ≤ max_packet_size
      → Keeps before held (forward_udp cfg d session_id game_addr payload info raw)
  unfolding forward_udp
  forward_udp-Keeps game_addr payload info raw fits =
      Keeps-if before held cfg.tun_udp_enabled _ _
        (Keeps-bind before held (send_tun count_udp (tun_packet cfg d session_id raw)) _
          (send_tun-Keeps before held count_udp _ (λ s t. t)) (λ _. name_session-Keeps info.src_ip))
        (Keeps-bind before held (name_session cfg d session_id info.src_ip) _
          (name_session-Keeps info.src_ip)
          λ _ r h.
            Leaves-after _ _ _ (acquire r) (send_acquired cfg d session_id game_addr payload info)
              (acquire-InHand before held r h) (send_acquired-Leaves game_addr payload info fits))

  forward-Keeps :
      (parsed : ParsedPacket) → Fits parsed → Keeps before held (forward cfg d session_id parsed)
  forward-Keeps forbidden_dst f r h = refuse-Keeps before held Stats.forbidden_dst r h
  forward-Keeps (fragment protocol src_ip raw) f r h =
      forward_fragment-Keeps protocol src_ip raw r h
  forward-Keeps (tcp info raw) f r h = forward_tcp-Keeps info raw r h
  forward-Keeps (udp game_addr payload info raw) f r h =
      forward_udp-Keeps game_addr payload info raw f r h

  charge_budget-Keeps : (packet : Bytes) → Keeps before held (charge_budget cfg d session_id packet)
  unfolding charge_budget
  charge_budget-Keeps packet r (own, (reg, lim, bud, tot, buf)) =
      by_result (allow r.budgets r.sessions session_id false packet (d.mono_ms / 1000))
        (allow-Charged r.budgets r.sessions session_id false packet (d.mono_ms / 1000) bud)
    where
      by_result :
          (result : Parse (Budgets × Bool))
          → Charged result
          → Leaves
              (λ _ r'. Holds before held r')
              (λ r'. Holds before held r')
              (elim result [
                | panicked ↦ crashed
                | rejected ↦ crashed
                | got (budgets', ok) ↦ going ok (record r { budgets = budgets' })
              ])
      by_result (got (budgets', ok)) v = (own, (reg, lim, v, tot, buf))
      by_result rejected v = absurd v
      by_result panicked v = absurd v

  charge-Keeps :
      (parsed : ParsedPacket) (packet : Bytes)
      → Keeps before held (charge cfg d session_id parsed packet)
  unfolding charge
  charge-Keeps parsed packet =
      Keeps-if before held (is_forbidden cfg d session_id parsed) _ _ (pure-Keeps before held tt) (
        Keeps-bind before held (charge_budget cfg d session_id packet) _
          (charge_budget-Keeps packet) (λ ok. refuse_unless-Keeps before held ok rate_limit))

  -- A payload is no longer than the packet that it stands in.
  verdict-Fits :
      (policy policy' : DestPolicy) (packet : Bytes) (parsed : ParsedPacket)
      → length packet ≤ max_packet_size
      → IsVerdict policy packet (policy', parsed)
      → Fits parsed
  verdict-Fits policy policy' packet (udp game_addr payload info raw) short
        (header, is_header, judged) =
      let (same, _, _, _, _, _, _, _, _, (_, _, part), _) = judged in
      omega (
        arith,
        short,
        ap length same,
        part.size,
        part.inside,
        is_header.cut.size,
        is_header.cut.inside,
      )
  verdict-Fits policy policy' packet (tcp info raw) short v = tt
  verdict-Fits policy policy' packet (fragment protocol src_ip raw) short v = tt
  verdict-Fits policy policy' packet forbidden_dst short v = tt

  parse_packet-Leaves :
      (packet : Bytes) (r : Relay)
      → length packet ≤ max_packet_size
      → Holds before held r
      → Leaves
          (λ parsed r'. Fits parsed × Holds before held r')
          (λ r'. Holds before held r')
          (parse_packet cfg d session_id packet r)
  unfolding parse_packet
  parse_packet-Leaves packet r short h =
      by_result (parse_ip_packet_full r.policy packet) (parse_lem r.policy packet)
    where
      by_result :
          (result : Parse (DestPolicy × ParsedPacket))
          → Gives (IsVerdict r.policy packet) result
          → Leaves
              (λ parsed r'. Fits parsed × Holds before held r')
              (λ r'. Holds before held r')
              (elim result [
                | panicked ↦ crashed
                | rejected ↦ refuse Stats.parse r
                | got (policy', parsed) ↦ going parsed (record r { policy = policy' })
              ])
      by_result (got (policy', parsed)) v = (verdict-Fits r.policy policy' packet parsed short v, h)
      by_result rejected v = refuse-Keeps before held Stats.parse r h
      by_result panicked v = absurd v

  pub handle_packet-Keeps :
      (known : Bool) → IsReceived d → Keeps before held (handle_packet cfg d session_id known)
  unfolding handle_packet
  handle_packet-Keeps known rec =
      Keeps-bind before held (refuse_unless (not (requires_auth cfg.auth.mode) || known) auth) _
        (refuse_unless-Keeps before held (not (requires_auth cfg.auth.mode) || known) auth)
        λ _.
          refuse_if-Keeps before held (ltb d.len (session_id_len + ip_header_min)) too_small _
            λ long.
              slice-Keeps before held d rec session_id_len d.len _ (ground (arith, long)) rec.inside
                λ packet part r h.
                  Leaves-after _ _ _ (parse_packet cfg d session_id packet r) _
                    (parse_packet-Leaves packet r (omega (arith, part.size, rec.inside)) h)
                    λ parsed r' (fits, h').
                      Keeps-bind before held (charge cfg d session_id parsed packet)
                        (λ _. forward cfg d session_id parsed) (charge-Keeps parsed packet)
                        (λ _. forward-Keeps parsed fits) r' h'
