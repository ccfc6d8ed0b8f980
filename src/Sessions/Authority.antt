-- ===== src/Sessions/Authority.antt =====
-- The address that return traffic goes to (src/main.rs, `forwarding_addr`).
use swifttunnel_relay.Prelude.{
  ℕ, ◌<◌, ◌≡◌, ◌↔◌, ◌⊎◌, true, false, none, some, arith, Bytes, bytes_eq, lookup, Option-cases, inl,
  inr,
}
use swifttunnel_relay.Addr.{SocketAddr}
use swifttunnel_relay.Sessions.{
  Sessions, SessionEntry, authenticated, forwarding_addr, session_auth_is_current,
  session_lease_is_current,
}

-- With authentication a packet is sent exactly to the address of an authenticated session whose lease
-- has not expired.
pub forwarding_addr_iff :
    (sessions : Sessions) (session_id : Bytes) (now_unix : ℕ) (addr : SocketAddr)
    → (forwarding_addr sessions session_id true now_unix ≡ some addr) ↔ (
        (session : SessionEntry) × (expires_at : ℕ) × (lookup session_id sessions ≡ some session)
        × (session.auth_state ≡ authenticated)
        × (session.lease_expires_at_unix ≡ some expires_at)
        × (now_unix < expires_at)
        × (session.client_addr ≡ addr))
unfolding forwarding_addr session_auth_is_current
forwarding_addr_iff sessions session_id now_unix addr = (
  λ h. elim (Option-cases (lookup session_id sessions)) [
    | inl none_found ↦ absurd (ground (arith, none_found, h))
    | inr (session, found) ↦ elim (Option-cases session.lease_expires_at_unix) [
      | inl no_lease ↦ absurd (ground (arith, found, h, no_lease))
      | inr (expires_at, lease) ↦
          (session, expires_at, found, ground arith, lease, ground arith, ground arith)
    ]
  ],
  λ (session, expires_at, found, auth, lease, live, same). ground arith,
)

-- Without authentication a packet is sent exactly to the address of a session that has no lease or one that has not expired.
pub forwarding_addr_open_iff :
    (sessions : Sessions) (session_id : Bytes) (now_unix : ℕ) (addr : SocketAddr)
    → (forwarding_addr sessions session_id false now_unix ≡ some addr) ↔ (
        (session : SessionEntry) × (lookup session_id sessions ≡ some session)
        × ((session.lease_expires_at_unix ≡ none)
            ⊎ ((expires_at : ℕ) × (session.lease_expires_at_unix ≡ some expires_at)
                × (now_unix < expires_at)))
        × (session.client_addr ≡ addr))
unfolding forwarding_addr session_lease_is_current
forwarding_addr_open_iff sessions session_id now_unix addr = (
  λ h. elim (Option-cases (lookup session_id sessions)) [
    | inl none_found ↦ absurd (ground (arith, none_found, h))
    | inr (session, found) ↦ elim (Option-cases session.lease_expires_at_unix) [
      | inl no_lease ↦ (session, found, inl no_lease, ground arith)
      | inr (expires_at, lease) ↦
          (session, found, inr (expires_at, lease, ground arith), ground arith)
    ]
  ],
  λ (session, found, lease, same). elim lease [
    | inl no_lease ↦ ground arith
    | inr (expires_at, leased, live) ↦ ground arith
  ],
)
