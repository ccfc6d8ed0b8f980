-- ===== src/Datapath/Relay/Control.antt =====
-- src/datapath_v2.rs: the pool's buffers, the queues, the small control frames and the limits, as steps.
use swifttunnel_relay.Prelude.{
  ℕ, Bool, true, false, ◌||◌, [], ◌∷◌, ◌++◌, Option, none, some, if◌then◌else◌, ltb, leb, eqb,
  length, drop, set, get_elem?, Bytes,
}
use swifttunnel_relay.Addr.{SocketAddr}
use swifttunnel_relay.RateLimit.Window.{SourceLimitKind}
use swifttunnel_relay.RateLimit.Limiter
use swifttunnel_relay.RateLimit.Pending
use swifttunnel_relay.Datapath.Pool.{try_acquire, release}
use swifttunnel_relay.Datapath.Stats.{
  fetch_add, DropReason, rate_limit, pool, tx_queue, tun_queue, drop_in, drop_out, Stats,
}
use swifttunnel_relay.Datapath.Relay.{
  Relay, Config, Datagram, TxPacket, queued_control, ShardMsg, InboundTunPacket, try_send,
  shard_for_session, max_packet_size,
}
use swifttunnel_relay.Datapath.Relay.Step.{
  Run, going, crashed, ◌>>=◌, ◌>>◌, pure, modify, finish, stop,
}

abbrev pub with_stats : (Stats → Stats) → Relay → Relay
with_stats f r = record r { stats = f r.stats }

-- `stats.drop_in(reason)` and `continue`
abbrev pub refuse : {A : Type 0} → DropReason → Run A
refuse reason = finish (with_stats (λ s. drop_in s reason))

-- `stats.drop_in(reason)` and `stats.drop_out(reason)`, where the code goes on
abbrev pub count_in : DropReason → Run (Unit {0})
count_in reason = modify (with_stats (λ s. drop_in s reason))

abbrev pub count_out : DropReason → Run (Unit {0})
count_out reason = modify (with_stats (λ s. drop_out s reason))

abbrev pub count_exhausted : Run (Unit {0})
count_exhausted =
    modify (with_stats (λ s. record s { pool_exhausted = fetch_add s.pool_exhausted 1 }))

-- `if !ok { continue; }`
abbrev pub continue_unless : Bool → Run (Unit {0})
continue_unless true = pure tt
continue_unless false = stop

abbrev pub refuse_unless : Bool → DropReason → Run (Unit {0})
refuse_unless true reason = pure tt
refuse_unless false reason = refuse reason

-- `pool.try_acquire()` and `pool.release(idx)`; a release that blocks does not come back
unfoldable pub acquire : Run (Option ℕ)
acquire r = let (pool', idx) = try_acquire r.pool in going idx (record r { pool = pool' })

unfoldable pub give_back : ℕ → Run (Unit {0})
give_back idx r = elim (release r.pool idx) [
  | none ↦ crashed
  | some pool' ↦ going tt (record r { pool = pool' })
]

-- a write of bytes at the start of a buffer: the index and the length are tested
unfoldable pub write_buffer : ℕ → Bytes → Run (Unit {0})
write_buffer idx bytes r =
    if leb r.pool.slots idx || ltb max_packet_size (length bytes)
    then crashed
    else going tt (record r {
      buffers = λ i. if eqb i idx then bytes ++ drop (length bytes) (r.buffers i) else r.buffers i;
    })

-- `tx_control.try_send(packet)`, and what is done where it fails
unfoldable pub send_control : TxPacket → Run (Unit {0})
send_control packet r = elim (try_send r.tx_control packet) [
  | some tx' ↦ going tt (record r { tx_control = tx' })
  | none ↦ (do count_out tx_queue; give_back packet.buf_idx) r
]

-- a control frame in the buffer that was asked for
abbrev pub send_in : SocketAddr → Bytes → Bytes → ℕ → Option ℕ → Run (Unit {0})
send_in client_addr session_id frame now none = do count_out pool; count_exhausted
send_in client_addr session_id frame now (some idx) = do
  write_buffer idx frame
  send_control (record {
    addr = client_addr;
    session_id = session_id;
    buf_idx = idx;
    len = length frame;
    enqueued_at = now;
    kind = queued_control;
  })

unfoldable pub send_frame : SocketAddr → Bytes → Bytes → ℕ → Run (Unit {0})
send_frame client_addr session_id frame now = do
  buf_idx ← acquire
  send_in client_addr session_id frame now buf_idx

abbrev pub send_small_control_frame : SocketAddr → Bytes → ℕ → ℕ → ℕ → Run (Unit {0})
send_small_control_frame client_addr session_id frame_type status now =
    send_frame client_addr session_id (session_id ++ (frame_type ∷ status ∷ [])) now

-- src/main.rs, `allow_source_event`
unfoldable pub allow_source_event : SocketAddr → SourceLimitKind → ℕ → Run Bool
allow_source_event client_addr kind now r =
    let (limiter', ok) = Limiter.allow r.limiter client_addr.ip kind now in
    let r' = record r { limiter = limiter' } in
    if ok
    then going true r'
    else going false (
        with_stats
          (λ s. drop_in (record s { throttled_users = fetch_add s.throttled_users 1 }) rate_limit)
          r')

-- `pending_auth.allow(client_addr.ip(), now)`
unfoldable pub allow_pending : Config → Datagram → Run Bool
allow_pending cfg d r = elim (Pending.allow cfg.hash_one r.pending d.client_addr.ip d.now) [
  | none ↦ crashed
  | some (pending', ok) ↦ going ok (record r { pending = pending' })
]

-- What comes of a message to the session's shard: there may be no shard, or no room in its channel.
pub data Sent : Type 0 where
  sent full no_shard : Sent

unfoldable pub send_shard : Bytes → ShardMsg → Run Sent
send_shard session_id msg r =
    let shard_id = shard_for_session session_id (length r.shards) in
    elim (get_elem? r.shards shard_id) [
      | none ↦ going no_shard r
      | some channel ↦ elim (try_send channel msg) [
        | none ↦ going full r
        | some channel' ↦ going sent (record r { shards = set r.shards shard_id channel' })
      ]
    ]

-- A packet to the TUN device, counted by `forwarded` or as dropped.
unfoldable pub send_tun : (Stats → Stats) → InboundTunPacket → Run (Unit {0})
send_tun forwarded packet r = elim r.tun [
  | none ↦ count_in tun_queue r
  | some channel ↦ elim (try_send channel packet) [
    | none ↦ count_in tun_queue r
    | some channel' ↦ going tt (with_stats forwarded (record r { tun = some channel' }))
  ]
]
