-- ===== src/Datapath/Relay.antt =====
-- src/datapath_v2.rs: what the threads share, the messages between them, and the steps that touch it.
-- A bounded channel is a list with a capacity. Waking a shard's thread is not part of the state.
pub mod Step
pub mod Control
pub mod Sound
pub mod Keeps
pub mod Quiet
pub mod Sends
pub mod Registry
use Prim.Native.Nat.{bit_xor}
use swifttunnel_relay.Prelude.{
  ℕ, ◌+◌, ◌-◌, ◌*◌, ◌/◌, ◌%◌, ◌^◌, Bool, true, false, ◌&&◌, List, [], ◌∷◌, ◌++◌, Option, none, some,
  if◌then◌else◌, ltb, eqb, Bytes, text, Assoc, length, drop, get_elem?, set, from_be,
}
use swifttunnel_relay.Addr.{IpAddr, Ipv4Addr, SocketAddr}
use swifttunnel_relay.Auth.Mode.{RelayAuthConfig}
use swifttunnel_relay.Auth.Replay.{RelayTicketReplayCache}
use swifttunnel_relay.Auth.Ticket.{Crates, session_hex}
use swifttunnel_relay.RateLimit.Window.{SourceRateState}
use swifttunnel_relay.RateLimit.Limiter.{SourceRateLimiter}
use swifttunnel_relay.Sessions.{Sessions}
use swifttunnel_relay.Sessions.Counts.{SourceSessionCounts}
use swifttunnel_relay.Budget.Event.{Budgets}
use swifttunnel_relay.DestPolicy.Permits.{DestPolicy}
use swifttunnel_relay.Packet.Parse.{OriginalPacketInfo}
use swifttunnel_relay.Datapath.Pool.{BufferPool}
use swifttunnel_relay.Datapath.Stats.{Stats, SessionTraffic}

-- a `crossbeam_channel::bounded`
pub record Channel (A : Type 0) : Type 0 where
  pub cap : ℕ
  pub items : List A

-- `try_send`: `none` where the channel is full
unfoldable pub try_send : {A : Type 0} → Channel A → A → Option (Channel A)
try_send c a =
    if ltb (length c.items) c.cap then some (record c { items = c.items ++ (a ∷ []) }) else none

pub data QueuedPacketKind : Type 0 where
  queued_data queued_control : QueuedPacketKind

pub record TxPacket : Type 0 where
  pub addr : SocketAddr
  pub session_id : Bytes
  pub buf_idx : ℕ
  pub len : ℕ
  pub enqueued_at : ℕ
  pub kind : QueuedPacketKind

pub data ShardMsg : Type 0 where
  -- session, client, game server, packet, buffer, payload length, time
  client_packet : Bytes → SocketAddr → SocketAddr → OriginalPacketInfo → ℕ → ℕ → ℕ → ShardMsg
  keepalive : Bytes → SocketAddr → ShardMsg
  remove_session : Bytes → ShardMsg

-- `tcp_tun::InboundTunPacket`
pub record InboundTunPacket : Type 0 where
  pub session_id : Bytes
  pub client_addr : SocketAddr
  pub raw_ip_packet : Bytes

-- a lookup task of `resolve_rt`: the session, the request id, the hosts and where the answer goes
pub record ResolveTask : Type 0 where
  pub session_id : Bytes
  pub request_id : ℕ
  pub hosts : List Bytes
  pub addr : SocketAddr

-- MAX_DATA_QUEUE_AGE, in nanoseconds
abbrev pub max_data_queue_age : ℕ
max_data_queue_age = 250_000_000

abbrev pub is_data : QueuedPacketKind → Bool
is_data queued_data = true
is_data queued_control = false

unfoldable pub should_drop_stale_queued_packet : QueuedPacketKind → ℕ → ℕ → Bool
should_drop_stale_queued_packet kind enqueued_at now =
    is_data kind && ltb max_data_queue_age (now - enqueued_at)

abbrev pub xor_shift : ℕ → ℕ
xor_shift sid = bit_xor sid (sid / 2 ^ 33)

-- `shard_count` is positive: the code clamps it
unfoldable pub shard_for_session : Bytes → ℕ → ℕ
shard_for_session session_id shard_count =
    let sid = xor_shift (from_be 0 session_id) in
    let sid = xor_shift (sid * 0xff51afd7ed558ccd % 2 ^ 64) in
    xor_shift (sid * 0xc4ceb9fe1a85ec53 % 2 ^ 64) % shard_count

-- what the receive loop was started with
pub record Config : Type 0 where
  pub crates : Crates
  pub hash_one : IpAddr → ℕ
  pub auth : RelayAuthConfig
  pub tun_udp_enabled : Bool
  pub tcp_enabled : Bool
  pub resolve_socket : Bool

-- The maps, limits and counters that the threads share, the channels between them, and the limiter of
-- pending hellos, which the receive loop owns. `buffers` is what the pool's buffers hold.
pub record Relay : Type 0 where
  pub sessions : Sessions
  pub counts : SourceSessionCounts
  pub limiter : SourceRateLimiter
  pub pending : List SourceRateState
  pub replay : RelayTicketReplayCache
  pub budgets : Budgets
  pub policy : DestPolicy
  pub pool : BufferPool
  pub buffers : ℕ → Bytes
  pub stats : Stats
  pub traffic : Assoc Bytes SessionTraffic
  pub tx_control : Channel TxPacket
  pub tx_data : Channel TxPacket
  pub shards : List (Channel ShardMsg)
  pub tun : Option (Channel InboundTunPacket)
  pub resolves : List ResolveTask

-- A datagram in the receive buffer and the clocks that are read while it is handled: `now` and
-- `now_unix` first, `later` (`Instant::now()` again) and `mono_ms` (`mono_timestamp_ms()`) after.
pub record Datagram : Type 0 where
  pub buf : Bytes
  pub len : ℕ
  pub client_addr : SocketAddr
  pub now : ℕ
  pub now_unix : ℕ
  pub later : ℕ
  pub mono_ms : ℕ

abbrev pub max_packet_size : ℕ
max_packet_size = 1600
