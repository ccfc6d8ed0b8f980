-- ===== src/Sessions/Counts.antt =====
-- src/main.rs: how many sessions each source address has, kept beside the sessions.
pub mod Agree
use swifttunnel_relay.Prelude.{
  ℕ, ◌+◌, ◌-◌, Option, none, some, if◌then◌else◌, ltb, ◌==◌, unwrap_or, Assoc, lookup, insert,
  remove,
}
use swifttunnel_relay.Addr.{IpAddr, ip_eq}

abbrev pub SourceSessionCounts : Type 0
SourceSessionCounts = Assoc IpAddr ℕ

unfoldable pub source_session_count : SourceSessionCounts → IpAddr → ℕ
source_session_count counts source_ip = unwrap_or (lookup source_ip counts) 0

unfoldable pub increment_source_session_count : SourceSessionCounts → IpAddr → SourceSessionCounts
increment_source_session_count counts source_ip =
    insert source_ip (unwrap_or (lookup source_ip counts) 0 + 1) counts

unfoldable pub decrement_source_session_count : SourceSessionCounts → IpAddr → SourceSessionCounts
decrement_source_session_count counts source_ip = elim (lookup source_ip counts) [
  | none ↦ remove source_ip counts
  | some count ↦
      if ltb 1 count then insert source_ip (count - 1) counts else remove source_ip counts
]

unfoldable pub update_source_session_count_for_rebind :
    SourceSessionCounts → IpAddr → IpAddr → SourceSessionCounts
update_source_session_count_for_rebind counts old_ip new_ip =
    if old_ip == new_ip
    then counts
    else increment_source_session_count (decrement_source_session_count counts old_ip) new_ip
