-- ===== src/Datapath/Relay/Sends.antt =====
-- Messages to the shards and to the TUN device, and the invariant of the shared state
-- (src/datapath_v2.rs).
use swifttunnel_relay.Prelude.{
  ℕ, ◌+◌, ◌≡◌, refl, arith, inl, inr, Option-cases, List, ◌∷◌, length, get_elem?, Bytes,
}
use swifttunnel_relay.Sessions.{Sessions}
use swifttunnel_relay.Datapath.Stats.{tun_queue, Stats}
use swifttunnel_relay.Datapath.Stats.Drops.{AreTotalled}
use swifttunnel_relay.Datapath.Relay.{
  Relay, ShardMsg, client_packet, keepalive, remove_session, InboundTunPacket, try_send,
  shard_for_session,
}
use swifttunnel_relay.Datapath.Relay.Step.{Leaves}
use swifttunnel_relay.Datapath.Relay.Control.{Sent, sent, full, no_shard, send_shard, send_tun}
use swifttunnel_relay.Datapath.Relay.Sound.{Holds, in_shards-send, carried, weigh}
use swifttunnel_relay.Datapath.Relay.Keeps.{Keeps, count_in-Keeps}

-- the buffers in hand, with those that a message carries
abbrev pub with_carried : ShardMsg → List ℕ → List ℕ
with_carried (client_packet sid client game info idx len now) held = idx ∷ held
with_carried (keepalive sid client) held = held
with_carried (remove_session sid) held = held

with_carried_lem :
    (weight : ℕ → ℕ) (msg : ShardMsg) (held : List ℕ)
    → weigh weight (with_carried msg held) ≡ weigh weight held + carried weight msg
unfolding weigh
with_carried_lem weight (client_packet sid client game info idx len now) held = omega arith
with_carried_lem weight (keepalive sid client) held = omega arith
with_carried_lem weight (remove_session sid) held = omega arith

module _ (before : Sessions) (held : List ℕ) where
  -- a message that is not sent leaves its buffers in hand
  abbrev pub AfterSend : ShardMsg → Sent → Relay → Type 0
  AfterSend msg sent r = Holds before held r
  AfterSend msg full r = Holds before (with_carried msg held) r
  AfterSend msg no_shard r = Holds before (with_carried msg held) r

  pub send_shard-AfterSend :
      (session_id : Bytes) (msg : ShardMsg) (r : Relay)
      → Holds before (with_carried msg held) r
      → Leaves
          (λ outcome r'. (r'.pool.slots ≡ r.pool.slots) × AfterSend msg outcome r')
          (λ r'. Holds before held r')
          (send_shard session_id msg r)
  unfolding send_shard
  send_shard-AfterSend session_id msg r (own, (reg, lim, bud, tot, buf)) =
      let id = shard_for_session session_id (length r.shards) in
      elim (Option-cases (get_elem? r.shards id)) [
        | inl e ↦ rw (send_shard, e) (refl, (own, (reg, lim, bud, tot, buf)))
        | inr (channel, e) ↦ elim (Option-cases (try_send channel msg)) [
          | inl e' ↦ rw (send_shard, e, e') (refl, (own, (reg, lim, bud, tot, buf)))
          | inr (channel', e') ↦
              rw (send_shard, e, e')
                (
                  refl,
                  (
                    own,
                    (
                      reg,
                      lim,
                      bud,
                      tot,
                      record {
                        indices = buf.indices;
                        whole = λ weight. omega (
                          arith,
                          buf.whole weight,
                          in_shards-send weight r.shards id channel channel' msg e e',
                          with_carried_lem weight msg held,
                        );
                      },
                    ),
                  ),
                )
        ]
      ]

  pub send_tun-Keeps :
      (forwarded : Stats → Stats) (packet : InboundTunPacket)
      → ((s : Stats) → AreTotalled s → AreTotalled (forwarded s))
      → Keeps before held (send_tun forwarded packet)
  unfolding send_tun
  send_tun-Keeps forwarded packet k r h = elim (Option-cases r.tun) [
    | inl e ↦ rw (send_tun, e) (count_in-Keeps before held tun_queue r h)
    | inr (channel, e) ↦ elim (Option-cases (try_send channel packet)) [
      | inl e' ↦ rw (send_tun, e, e') (count_in-Keeps before held tun_queue r h)
      | inr (channel', e') ↦
          let (own, (reg, lim, bud, tot, buf)) = h in
          rw (send_tun, e, e') (own, (reg, lim, bud, k r.stats tot, buf))
    ]
  ]
