-- ===== src/Lib.antt =====
-- SwiftTunnel relay: a model of the relay's decisions on tickets, sources, destinations and packets.
--
-- The relay receives UDP datagrams that carry an 8-byte session id and an IPv4 packet, decides whether
-- to forward the packet, and sends what the game server answers back to the session's client. A hello
-- frame with a signed ticket opens a session; hellos are limited before their ticket is verified. Where
-- tickets are required, a datagram with a packet passes, in this order, the tests on the session's owner,
-- lease and address, the rate limits of its source, the parser, which asks the blocked destinations
-- and the destination policy, and the account's budget. Answers go to the address that the session has
-- when they are sent.
-- A receive thread, shard threads, a transmit thread and a cleanup task share the sessions, the limits,
-- the counters and a pool of buffers, and pass packets on through bounded channels.
--
-- The files, and the code that each is about (paths from the repository's root):
--   Prelude     lists, options, maps, bytes and words on native numbers; no code of the relay.
--   Addr        std::net addresses.
--   RateLimit   src/main.rs: `Window` is SourceRateState, `Limiter` SourceRateLimiter, `Pending`
--               PendingAuthLimiter.
--   Auth        src/main.rs: `Mode` is RelayAuthConfig and the errors, `Ticket` verify_relay_ticket and
--               verify_relay_ticket_once, `Replay` RelayTicketReplayCache, `Frame`
--               parse_auth_hello_token.
--   Sessions    src/main.rs: SessionEntry, the lease and owner tests, forwarding_addr; `Counts` is the
--               number of sessions of each source.
--   DestPolicy  src/dest_policy.rs: `Nets` is Net and NetSet, `Permits` DestPolicy::permits and the tally.
--   Packet      src/main.rs: `Destinations` is is_forbidden_dst and is_forbidden_dst_port, `Parse`
--               parse_ip_packet_full, `Checksum` calculate_ip_checksum, `Response`
--               build_response_ip_packet_with_tos and, of src/datapath_v2.rs,
--               write_response_ip_packet_into_with_tos, `Resolve` parse_resolve_request and
--               build_resolve_response.
--   Budget      src/account_budget.rs: `Flows` is Flow, `Event` Budgets.
--   Datapath    src/datapath_v2.rs: `Pool` is BufferPool, `Relay` what the threads share, with the
--               channels and send_small_control_frame, `Receive` one round of the receive thread of
--               run_datapath_v2, stage by stage, `Transmit` send_tx_packet, `Cleanup` one tick of the
--               session cleanup, `Respond` an answer that run_shard reads from a flow; `Stats` is the
--               Stats and SessionTraffic of src/main.rs.
--   Examples    the theorems at concrete inputs.
--
-- How the code is modelled. A struct is a record and an operation is a function from the state to the
-- next state and the result. A lock or an atomic makes an operation one step, so a history of calls is
-- a list. Maps are association lists with the operations of DashMap and HashMap; the order of
-- their entries stands for an order that the code leaves open. Text is its bytes. `Option` stands for Rust's, and, where a comment says so, `none`
-- for a panic; the packet parser has a result of its own, with rejection and panic apart. Times are
-- numbers: nanoseconds on the monotonic clock, seconds on the other, `now` a parameter. Counters of
-- u64 wrap or saturate as the code has it.
-- The threads' code runs on the shared state in a small monad, `Relay.Step`: it goes on, leaves the
-- handler as `continue` does, or is stuck, which is a panic or a wait for room in the pool that does
-- not end. Waits for a lock, for a datagram or for a message are not part of the model. A round of a
-- thread is one step; the theorems are about any state that fits the invariant, so about any order of
-- the rounds. The buffers that the other threads work on are a list of indices, `held`.
-- The crates that decode base64, verify Ed25519 signatures and read JSON, and std's hash of an
-- address, are parameters without hypotheses.
-- Fuel: the only loop on fuel is the folding of the checksum, with 2 rounds, which is enough for every
-- 32-bit sum. The binary search of a prefix set and the loops on lists are structural.
--
-- Not modelled: the table of flows of a shard with its inbox and its cleanup, the choice between the
-- two transmit queues, the v1 datapath, the TUN device, the HTTP servers and their JSON, start-up and
-- configuration. Interleavings inside a round are not modelled either: DashMap locks an entry, not the
-- round.
pub mod Prelude
pub mod Addr
pub mod RateLimit
pub mod Auth
pub mod Sessions
pub mod DestPolicy
pub mod Packet
pub mod Budget
pub mod Datapath
pub mod Examples
