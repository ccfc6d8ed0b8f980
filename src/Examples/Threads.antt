-- ===== src/Examples/Threads.antt =====
-- The transmit thread, the cleanup and the resolve answers at concrete inputs (src/datapath_v2.rs,
-- src/main.rs).
use swifttunnel_relay.Prelude.{
  Bool, false, ◌⊎◌, ℕ, ◌≡◌, ◌≤◌, ◌↔◌, refl, arith, true, List, [], ◌∷◌, none, some, Bytes, bytes_eq,
  text, length, length-replicate, replicate, lookup,
}
use swifttunnel_relay.Addr.{Ipv4Addr, ipv4, v4}
use swifttunnel_relay.Packet.Resolve.{build_resolve_response}
use swifttunnel_relay.Packet.Resolve.Reply.{length-build_resolve_response}
use swifttunnel_relay.Datapath.Relay.{Relay, TxPacket, queued_data}
use swifttunnel_relay.Datapath.Relay.Sound.{
  IsSound, OwnersKept, in_shards, carried_all, weigh, queued, weigh_below,
}
use swifttunnel_relay.Datapath.Transmit.{Sending, Handed, transmit}
use swifttunnel_relay.Datapath.Transmit.Routes.{IsInHand, IsRouted, transmit-IsSound}
use swifttunnel_relay.Datapath.Respond.{Flow, Answer, respond, responded}
use swifttunnel_relay.Datapath.Respond.Queues.{Carries}
use swifttunnel_relay.Datapath.Respond.Covered.{IsCovered, IsFilled, respond-IsSound}
use swifttunnel_relay.Datapath.Cleanup.{cleanup}
use swifttunnel_relay.Datapath.Cleanup.Survivors.{IsLive, cleanup-IsSound, cleanup-survivors}
use swifttunnel_relay.Examples.Datagrams.{home, id, session, relay, relay-IsSound}

-- A packet of game data for the session, in buffer 0, which the transmit thread holds.
abbrev packet : TxPacket
packet = record {
  addr = home;
  session_id = id;
  buf_idx = 0;
  len = 38;
  enqueued_at = 1_000_000;
  kind = queued_data;
}

abbrev sending : Sending
sending = record {
  auth_required = true;
  now = 2_000_000;
  now_unix = 1005;
  mono_ms = 5000;
  accepts = λ addr bytes. true;
}

abbrev busy : Relay
busy = record relay { pool = record { slots = 2; free = 1 ∷ [] }; buffers = λ i. replicate 1600 7 }

packet-IsInHand : IsInHand packet busy
packet-IsInHand = record {
  small = omega arith;
  size = length-replicate {A = ℕ} 1600 7;
  framed = omega arith;
  fits = omega arith;
}

busy-IsSound : IsSound (0 ∷ []) busy
unfolding in_shards carried_all weigh queued weigh_below
busy-IsSound =
    let (reg, lim, bud, tot, buf) = relay-IsSound in
    (reg, lim, bud, tot, record { indices = (omega arith, tt); whole = λ weight. omega arith })

transmit-IsSound_example :
    (r' : Relay) × (handed : Handed) × (transmit sending packet busy ≡ some (r', handed))
    × OwnersKept busy.sessions r'.sessions
    × IsSound [] r'
    × IsRouted sending packet busy handed
transmit-IsSound_example = transmit-IsSound sending packet [] busy packet-IsInHand busy-IsSound

-- 300 seconds after the session's last packet
cleanup-IsSound_example : IsSound [] (cleanup 300_000_000_000 1300 relay)
cleanup-IsSound_example = cleanup-IsSound 300_000_000_000 1300 [] relay relay-IsSound

cleanup-survivors_example :
    (lookup id (cleanup 300_000_000_000 1300 relay).sessions ≡ some session)
    ↔ ((lookup id relay.sessions ≡ some session) × IsLive 300_000_000_000 1300 session)
cleanup-survivors_example = cleanup-survivors 300_000_000_000 1300 [] relay id session relay-IsSound

abbrev answers : List (Bytes × List Ipv4Addr)
answers = (text "roblox.com", ipv4 128 116 1 1 ∷ ipv4 128 116 1 2 ∷ []) ∷ []

length-build_resolve_response_example :
    (12 ≤ length (build_resolve_response id 7 answers))
    × (length (build_resolve_response id 7 answers) ≤ 20_922)
length-build_resolve_response_example = length-build_resolve_response id 7 answers refl

-- An answer while the lease of the session runs.
abbrev flow : Flow
flow = record {
  session_id = id;
  game_addr = record { ip = v4 (ipv4 128 116 1 1); port = 5000 };
  client_addr = home;
  original_info = record {
    tos = 0;
    src_ip = ipv4 10 0 0 2;
    src_port = 1000;
    dst_ip = ipv4 128 116 1 1;
    dst_port = 5000;
  };
  last_activity = 0;
  marked_for_removal = none;
  token = 1;
}

abbrev answer : ℕ → Answer
answer now_unix = record {
  payload = 0x61 ∷ [];
  response_tos = none;
  received_at = 6_000_000_000;
  now_unix = now_unix;
}

busy-IsFilled : IsFilled busy.buffers
busy-IsFilled = record { size = λ i. length-replicate {A = ℕ} 1600 7 }

respond-IsSound_example :
    (r' : Relay) × (result : Flow × Bool) × (responded flow
        (answer 1005)
        (respond flow (answer 1005) busy)
      ≡ some (r', result))
    × OwnersKept busy.sessions r'.sessions
    × IsSound (0 ∷ []) r'
    × ((IsCovered id 1005 busy.sessions × Carries flow (answer 1005) busy result r')
        ⊎ ((IsCovered id 1005 busy.sessions → ⊥) × (r' ≡ busy) × (result ≡ (flow, false))))
respond-IsSound_example =
    respond-IsSound flow (answer 1005) (0 ∷ []) busy refl busy-IsFilled busy-IsSound
