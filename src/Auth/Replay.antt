-- ===== src/Auth/Replay.antt =====
-- src/main.rs, `RelayTicketReplayCache`: the ids of the tickets in use, each until its expiry and the
-- clock skew have passed. A call is atomic, so the `compare_exchange` succeeds.
pub mod Once
use swifttunnel_relay.Prelude.{
  ℕ, ◌-◌, Bool, true, false, if◌then◌else◌, leb, ltb, Bytes, bytes_eq, [], Assoc, insert, retain,
  contains_key, saturating_add,
}

abbrev pub auth_clock_skew_secs : ℕ
auth_clock_skew_secs = 30

abbrev pub replay_cache_prune_interval_secs : ℕ
replay_cache_prune_interval_secs = 30

pub record RelayTicketReplayCache : Type 0 where
  pub seen_jti : Assoc Bytes ℕ
  pub last_prune_unix : ℕ

unfoldable pub new : RelayTicketReplayCache
new = record { seen_jti = []; last_prune_unix = 0 }

-- the test of `retain`
abbrev pub is_kept : ℕ → ℕ → Bool
is_kept now_unix seen_exp = leb now_unix (saturating_add seen_exp auth_clock_skew_secs)

unfoldable pub prune_expired : RelayTicketReplayCache → ℕ → RelayTicketReplayCache
prune_expired c now_unix =
    if ltb (now_unix - c.last_prune_unix) replay_cache_prune_interval_secs then c else record {
      seen_jti = retain (λ _ seen_exp. is_kept now_unix seen_exp) c.seen_jti;
      last_prune_unix = now_unix;
    }

unfoldable pub accept_once : RelayTicketReplayCache → Bytes → ℕ → ℕ → RelayTicketReplayCache × Bool
accept_once c jti exp now_unix =
    let c' = prune_expired c now_unix in
    if contains_key jti c'.seen_jti
    then (c', false)
    else (record c' { seen_jti = insert jti exp c'.seen_jti }, true)
