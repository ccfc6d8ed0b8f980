-- ===== src/Examples/Addresses.antt =====
-- Concrete sessions (src/main.rs, sessions and their counts).
use swifttunnel_relay.Prelude.{
  ℕ, ◌≡◌, ◌↔◌, ◌⊎◌, ◌<◌, arith, refl, true, false, [], ◌∷◌, none, some, Bytes, bytes_eq, bytes_beq,
  text, lookup, insert,
}
use swifttunnel_relay.Addr.{ip_eq, SocketAddr, v4, ipv4}
use swifttunnel_relay.Sessions.{SessionEntry, Sessions, authenticated, forwarding_addr}
use swifttunnel_relay.Sessions.Authority.{forwarding_addr_iff, forwarding_addr_open_iff}
use swifttunnel_relay.Sessions.Counts.{SourceSessionCounts, source_session_count}
use swifttunnel_relay.Sessions.Counts.Agree.{Agrees, sessions_from}

abbrev home : SocketAddr
home = record { ip = v4 (ipv4 203 0 113 9); port = 40000 }

abbrev away : SocketAddr
away = record { ip = v4 (ipv4 198 51 100 2); port = 41000 }

abbrev entry : SocketAddr → SessionEntry
entry addr = record {
  user_id = text "user-7";
  auth_state = authenticated;
  lease_expires_at_unix = some 1600;
  client_addr = addr;
  created_at_unix = 1000;
  last_activity = 0;
  last_activity_unix = 1000;
}

abbrev id : Bytes
id = 0 ∷ 0 ∷ 0 ∷ 0 ∷ 0 ∷ 0 ∷ 0 ∷ 1 ∷ []

forwarding_addr_iff_example :
    (forwarding_addr (insert id (entry home) []) id true 1200 ≡ some home) ↔ (
      (session : SessionEntry) × (expires_at : ℕ) × (lookup id (insert id (entry home) [])
        ≡ some session)
      × (session.auth_state ≡ authenticated)
      × (session.lease_expires_at_unix ≡ some expires_at)
      × (1200 < expires_at)
      × (session.client_addr ≡ home))
forwarding_addr_iff_example = forwarding_addr_iff (insert id (entry home) []) id 1200 home

forwarding_addr_open_iff_example :
    (forwarding_addr (insert id (entry home) []) id false 1200 ≡ some home) ↔ (
      (session : SessionEntry) × (lookup id (insert id (entry home) []) ≡ some session)
      × ((session.lease_expires_at_unix ≡ none)
          ⊎ ((expires_at : ℕ) × (session.lease_expires_at_unix ≡ some expires_at)
              × (1200 < expires_at)))
      × (session.client_addr ≡ home))
forwarding_addr_open_iff_example = forwarding_addr_open_iff (insert id (entry home) []) id 1200 home

abbrev no_sessions : Sessions
no_sessions = []

abbrev one_session : Sessions
one_session = (id, entry home) ∷ []

abbrev one_count : SourceSessionCounts
one_count = (v4 (ipv4 203 0 113 9), 1) ∷ []

nothing-Agrees : Agrees no_sessions []
unfolding source_session_count sessions_from lookup
nothing-Agrees = record { agree = λ ip. refl }

new_session-Agrees : Agrees one_session one_count
unfolding source_session_count sessions_from lookup
new_session-Agrees = record { agree = λ ip. ground arith }

missing : lookup id no_sessions ≡ none
unfolding lookup
missing = refl

found : lookup id one_session ≡ some (entry home)
unfolding lookup bytes_beq
found = refl
