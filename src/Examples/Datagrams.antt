-- ===== src/Examples/Datagrams.antt =====
-- A relay with one session, and datagrams for it (src/datapath_v2.rs, the receive loop).
use swifttunnel_relay.Prelude.{
  ℕ, ◌≡◌, ◌⊎◌, refl, arith, true, false, [], ◌∷◌, ◌++◌, none, some, Bytes, bytes_eq, bytes_beq,
  text, length, replicate, length-replicate, lookup,
}
use swifttunnel_relay.Addr.{ipv4, v4, SocketAddr}
use swifttunnel_relay.Auth.Mode.{required, requires_auth}
use swifttunnel_relay.Auth.Replay
use swifttunnel_relay.Auth.Frame.{parse_auth_hello_token}
use swifttunnel_relay.Auth.Ticket.{Crates, VerifiedRelayTicket}
use swifttunnel_relay.RateLimit.Window
use swifttunnel_relay.Sessions.{SessionEntry, authenticated}
use swifttunnel_relay.Sessions.Counts.{source_session_count}
use swifttunnel_relay.Sessions.Counts.Agree.{sessions_from}
use swifttunnel_relay.Budget.Event.{new_budgets}
use swifttunnel_relay.Budget.Event.Accounts.{tracked}
use swifttunnel_relay.DestPolicy.Permits.{off}
use swifttunnel_relay.Packet.Reader.{Gives}
use swifttunnel_relay.Packet.Resolve.{parse_resolve_request}
use swifttunnel_relay.Packet.Resolve.Request.{IsRequest, parse_resolve_request-IsRequest}
use swifttunnel_relay.Datapath.Stats.{new_stats, new_counters}
use swifttunnel_relay.Datapath.Stats.Drops.{all_reasons}
use swifttunnel_relay.Datapath.Relay.{Relay, Config, Datagram, Channel}
use swifttunnel_relay.Datapath.Relay.Sound.{
  IsSound, Owned, OwnersKept, in_shards, carried_all, weigh, queued, weigh_below,
}
use swifttunnel_relay.Datapath.Receive.Buffer.{IsReceived}
use swifttunnel_relay.Datapath.Receive.Loop.{receive}
use swifttunnel_relay.Datapath.Receive.Invariant.{receive-IsSound}
use swifttunnel_relay.Datapath.Receive.Identify.{IsHello, Evidence}
use swifttunnel_relay.Datapath.Receive.Authority.{
  IsSender, IsUndelivered, IsUntouched, receive-IsUntouched,
}
use swifttunnel_relay.Datapath.Receive.Ownership.{IsGiven, receive-owner}
use swifttunnel_relay.Datapath.Receive.Delivery.{receive-IsEarned}

abbrev pub home : SocketAddr
home = record { ip = v4 (ipv4 203 0 113 9); port = 40000 }

abbrev pub away : SocketAddr
away = record { ip = v4 (ipv4 198 51 100 2); port = 41000 }

abbrev pub id : Bytes
id = 0 ∷ 0 ∷ 0 ∷ 0 ∷ 0 ∷ 0 ∷ 1 ∷ 0x2a ∷ []

abbrev pub session : SessionEntry
session = record {
  user_id = text "user-7";
  auth_state = authenticated;
  lease_expires_at_unix = some 2000;
  client_addr = home;
  created_at_unix = 1000;
  last_activity = 0;
  last_activity_unix = 1000;
}

-- Crates that decode and verify nothing.
abbrev crates : Crates
crates = record {
  base64_url_safe_no_pad = λ b. none;
  base64_url_safe = λ b. none;
  base64_standard = λ b. none;
  verify = λ key payload signature. false;
  from_slice = λ payload. none;
}

abbrev pub config : Config
config = record {
  crates = crates;
  hash_one = λ ip. 0;
  auth = record { mode = required; public_key = none; server_id = none };
  tun_udp_enabled = false;
  tcp_enabled = false;
  resolve_socket = true;
}

abbrev pub channel : {A : Type 0} → Channel A
channel = record { cap = 4; items = [] }

abbrev pub relay : Relay
relay = record {
  sessions = (id, session) ∷ [];
  counts = (v4 (ipv4 203 0 113 9), 1) ∷ [];
  limiter = record { sources = []; created_at = 0; last_prune_ms = 0 };
  pending = Window.new 0 ∷ [];
  replay = Replay.new;
  budgets = new_budgets (record { enforce = false; packets = 2; bytes = 1000; new_flows = 1 }) 8 8;
  policy = record {
    mode = off;
    udp = [];
    tcp = [];
    tcp_ports = [];
    sample_every = 16;
    counters = record {
      udp_unlisted = 0;
      tcp_unlisted_network = 0;
      tcp_unlisted_port = 0;
      dropped = 0;
    };
    tick = 0;
    tally = record { networks = []; tcp_ports = []; overflow = 0 };
  };
  pool = record { slots = 2; free = 0 ∷ 1 ∷ [] };
  buffers = λ i. [];
  stats = new_stats;
  traffic = [];
  tx_control = channel;
  tx_data = channel;
  shards = channel ∷ channel ∷ [];
  tun = none;
  resolves = [];
}

-- the session's id and a packet, in the buffer
abbrev packet : Bytes
packet =
    0x45 ∷ 0 ∷ 0 ∷ 30 ∷ 0 ∷ 0 ∷ 0 ∷ 0 ∷ 64 ∷ 17 ∷ 0 ∷ 0 ∷ 10 ∷ 0 ∷ 0 ∷ 2 ∷ 128 ∷ 116 ∷ 1 ∷ 1 ∷ 3
    ∷ 0xe8 ∷ 0x13 ∷ 0x88 ∷ 0 ∷ 10 ∷ 0 ∷ 0 ∷ 0x61 ∷ 0x62 ∷ []

abbrev pub datagram : SocketAddr → ℕ → Datagram
datagram addr len = record {
  buf = id ++ (packet ++ replicate 1562 0);
  len = len;
  client_addr = addr;
  now = 5_000_000_000;
  now_unix = 1005;
  later = 5_000_100_000;
  mono_ms = 5000;
}

datagram_size : (addr : SocketAddr) (len : ℕ) → length (datagram addr len).buf ≡ 1600
datagram_size addr len = omega (arith, length-replicate {A = ℕ} 1562 0)

packet-IsReceived : IsReceived (datagram home 38)
packet-IsReceived = record { size = datagram_size home 38; inside = omega arith }

keepalive-IsReceived : IsReceived (datagram away 8)
keepalive-IsReceived = record { size = datagram_size away 8; inside = omega arith }

pub relay-IsSound : IsSound [] relay
unfolding source_session_count sessions_from lookup tracked new_stats all_reasons new_counters
    in_shards carried_all weigh queued weigh_below
relay-IsSound = (
  record {
    distinct = (refl, tt);
    counted = record { agree = λ ip. ground arith };
    room = omega arith;
  },
  record { valid = record { distinct = tt; bounded = omega arith }; buckets = omega arith },
  record {
    users = tt;
    flows = tt;
    taken = refl;
    flow_room = omega arith;
    account_room = omega arith;
  },
  refl,
  record { indices = (omega arith, (omega arith, tt)); whole = λ weight. omega arith },
)

-- a packet from the session's own address
receive-IsSound_example :
    (r' : Relay) × (receive config (datagram home 38) relay ≡ some r')
    × OwnersKept relay.sessions r'.sessions
    × IsSound [] r'
receive-IsSound_example =
    receive-IsSound config (datagram home 38) [] relay packet-IsReceived relay-IsSound

receive-IsEarned_example :
    (r' : Relay) × (receive config (datagram home 38) relay ≡ some r')
    × (IsUndelivered relay r'
        ⊎ ((IsHello (datagram home 38) → ⊥) × IsSender (datagram home 38) relay.sessions))
unfolding requires_auth
receive-IsEarned_example =
    receive-IsEarned config (datagram home 38) [] relay packet-IsReceived relay-IsSound refl

-- a keepalive from another address
away_is_no_sender : IsSender (datagram away 8) relay.sessions → ⊥
unfolding lookup bytes_beq
away_is_no_sender (s, expires_at, found, auth, lease, live, same) = ground (arith, found, same)

keepalive_has_no_ticket :
    (ticket : VerifiedRelayTicket) → Evidence config (datagram away 8) id ticket → ⊥
unfolding parse_auth_hello_token
keepalive_has_no_ticket ticket (token, parsed, valid) = ground (arith, parsed)

receive-IsUntouched_example :
    (r' : Relay) × (receive config (datagram away 8) relay ≡ some r') × IsUntouched relay r'
unfolding requires_auth
receive-IsUntouched_example =
    receive-IsUntouched config (datagram away 8) [] relay keepalive-IsReceived relay-IsSound refl
      away_is_no_sender keepalive_has_no_ticket

-- a request for one host
abbrev request : Bytes
request = id ++ (0xA6 ∷ 0 ∷ 7 ∷ 1 ∷ 10 ∷ text "roblox.com")

parse_resolve_request-IsRequest_example : Gives IsRequest (parse_resolve_request request 23)
parse_resolve_request-IsRequest_example = parse_resolve_request-IsRequest request 23 (omega arith)

-- the session's owner after the packet
packet-Owned :
    Owned
      (receive-IsSound config
        (datagram home 38)
        []
        relay
        packet-IsReceived
        relay-IsSound).0.sessions
      id
      (text "user-7")
unfolding lookup bytes_beq
packet-Owned =
    (receive-IsSound config (datagram home 38) [] relay packet-IsReceived relay-IsSound).2.kept id
      (text "user-7") (session, refl, refl, refl)

receive-owner_example :
    Owned relay.sessions id (text "user-7") ⊎ IsGiven config (datagram home 38) id (text "user-7")
receive-owner_example =
    receive-owner config (datagram home 38) relay
      (receive-IsSound config (datagram home 38) [] relay packet-IsReceived relay-IsSound).0 id
      (text "user-7") packet-IsReceived
      (receive-IsSound config (datagram home 38) [] relay packet-IsReceived relay-IsSound).1
      packet-Owned
