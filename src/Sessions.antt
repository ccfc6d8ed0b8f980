-- ===== src/Sessions.antt =====
-- src/main.rs, `SessionEntry` and what is asked of it: who may send in a session, whether its lease
-- runs, and where its return traffic goes. Times on the monotonic clock are in nanoseconds.
pub mod Counts
pub mod Authority
use swifttunnel_relay.Prelude.{
  ℕ, Bool, true, false, ◌&&◌, ◌||◌, not, Option, none, some, if◌then◌else◌, ltb, ◌==◌, is_some_and,
  is_none_or, Bytes, bytes_eq, Assoc, lookup,
}
use swifttunnel_relay.Addr.{SocketAddr, socket_eq}

pub data SessionAuthState : Type 0 where
  legacy authenticated : SessionAuthState

abbrev pub is_authenticated : SessionAuthState → Bool
is_authenticated legacy = false
is_authenticated authenticated = true

pub record SessionEntry : Type 0 where
  pub user_id : Bytes
  pub auth_state : SessionAuthState
  pub lease_expires_at_unix : Option ℕ
  pub client_addr : SocketAddr
  pub created_at_unix : ℕ
  pub last_activity : ℕ
  pub last_activity_unix : ℕ

abbrev pub Sessions : Type 0
Sessions = Assoc Bytes SessionEntry

unfoldable pub authenticated_session_source_allowed : SessionEntry → Bool → SocketAddr → Bool → Bool
authenticated_session_source_allowed session auth_required client_addr is_auth_hello =
    if not auth_required || not (is_authenticated session.auth_state)
    then true
    else is_auth_hello || session.client_addr == client_addr

unfoldable pub session_lease_is_current : SessionEntry → ℕ → Bool
session_lease_is_current session now_unix =
    is_none_or session.lease_expires_at_unix (λ expires_at. ltb now_unix expires_at)

unfoldable pub session_auth_is_current : SessionEntry → ℕ → Bool
session_auth_is_current session now_unix =
    is_authenticated session.auth_state
    && is_some_and session.lease_expires_at_unix (λ expires_at. ltb now_unix expires_at)

unfoldable pub forwarding_addr : Sessions → Bytes → Bool → ℕ → Option SocketAddr
forwarding_addr sessions session_id auth_required now_unix = elim (lookup session_id sessions) [
  | none ↦ none
  | some session ↦
      if (if auth_required
        then session_auth_is_current session now_unix
        else session_lease_is_current session now_unix)
      then some session.client_addr
      else none
]
