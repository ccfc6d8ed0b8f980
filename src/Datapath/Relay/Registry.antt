-- ===== src/Datapath/Relay/Registry.antt =====
-- The sessions and their counts, where a session comes, moves or changes its name (src/main.rs,
-- src/datapath_v2.rs).
use swifttunnel_relay.Prelude.{
  ◌<◌, ◌≡◌, ◌⊎◌, inl, inr, sym, ◌∙◌, ap, arith, true, false, Bool-cases, none, some, length, Bytes,
  bytes_eq, bytes_beq_iff, ◌==◌, lookup, insert, lookup-insert, insert-Distinct, length-insert,
}
use std.Path.{transport}
use swifttunnel_relay.Addr.{ip_eq, ip_beq_iff, IpAddr}
use swifttunnel_relay.RateLimit.Limiter.{max_sessions_total}
use swifttunnel_relay.Sessions.{SessionEntry, Sessions, is_authenticated}
use swifttunnel_relay.Sessions.Counts.{
  SourceSessionCounts, increment_source_session_count, update_source_session_count_for_rebind,
}
use swifttunnel_relay.Sessions.Counts.Agree.{insert-Agrees, rebind-Agrees}
use swifttunnel_relay.Datapath.Relay.Sound.{IsRegistry, Owned, OwnersKept}

pub rebind-IsRegistry :
    (sessions : Sessions) (counts : SourceSessionCounts) (id : Bytes) (old session : SessionEntry)
    → lookup id sessions ≡ some old
    → IsRegistry sessions counts
    → IsRegistry
        (insert id session sessions)
        (update_source_session_count_for_rebind counts old.client_addr.ip session.client_addr.ip)
rebind-IsRegistry sessions counts id old session found reg = record {
  distinct = insert-Distinct id session sessions reg.distinct;
  counted = rebind-Agrees sessions counts id old session found reg.counted;
  room = ground (arith, found, length-insert id session sessions, reg.room);
}

rebind-same :
    (counts : SourceSessionCounts) (ip : IpAddr)
    → update_source_session_count_for_rebind counts ip ip ≡ counts
unfolding update_source_session_count_for_rebind
rebind-same counts ip = ground (arith, ip_beq_iff ip ip)

-- A session that stays at its address.
pub update-IsRegistry :
    (sessions : Sessions) (counts : SourceSessionCounts) (id : Bytes) (old session : SessionEntry)
    → lookup id sessions ≡ some old
    → session.client_addr.ip ≡ old.client_addr.ip
    → IsRegistry sessions counts
    → IsRegistry (insert id session sessions) counts
update-IsRegistry sessions counts id old session found stays reg =
    let counts-same =
      ap (update_source_session_count_for_rebind counts old.client_addr.ip) stays
      ∙ rebind-same counts old.client_addr.ip in
    transport (ap (λ c. IsRegistry (insert id session sessions) c) counts-same)
      (rebind-IsRegistry sessions counts id old session found reg)

-- A new session, where there is room.
pub insert-IsRegistry :
    (sessions : Sessions) (counts : SourceSessionCounts) (id : Bytes) (session : SessionEntry)
    → lookup id sessions ≡ none
    → length sessions < max_sessions_total
    → IsRegistry sessions counts
    → IsRegistry
        (insert id session sessions)
        (increment_source_session_count counts session.client_addr.ip)
insert-IsRegistry sessions counts id session new room reg = record {
  distinct = insert-Distinct id session sessions reg.distinct;
  counted = insert-Agrees sessions counts id session new reg.counted;
  room = ground (arith, new, length-insert id session sessions, room);
}

-- What becomes of a session's owner: there is none yet, or he stays.
abbrev pub OwnerStays : SessionEntry → SessionEntry → Type 0
OwnerStays old session =
    (is_authenticated old.auth_state ≡ false)
    ⊎ ((is_authenticated session.auth_state ≡ true) × (session.user_id ≡ old.user_id))

Owned-insert :
    (sessions : Sessions) (id : Bytes) (old session : SessionEntry) (asked user : Bytes)
    → lookup id sessions ≡ some old
    → OwnerStays old session
    → Owned sessions asked user
    → Owned (insert id session sessions) asked user
Owned-insert sessions id old session asked user found stays (entry, at, owns, name) =
    elim (Bool-cases (id == asked)) [
      | inl same ↦
          let here : id ≡ asked = ground (arith, same, bytes_beq_iff id asked) in
          let the : some entry ≡ some old =
            sym at ∙ ap (λ k. lookup k sessions) (sym here) ∙ found in
          let is_old : entry ≡ old = ground (arith, the) in
          elim stays [
            | inl free ↦
                absurd (ground (arith, free, owns, ap (λ e. is_authenticated e.auth_state) is_old))
            | inr (stays_owned, stays_his) ↦ (
              session,
              ground (arith, same, lookup-insert id asked session sessions),
              stays_owned,
              stays_his ∙ sym (ap (λ e. e.user_id) is_old) ∙ name,
            )
          ]
      | inr other ↦
          (entry, ground (arith, other, at, lookup-insert id asked session sessions), owns, name)
    ]

pub insert-OwnersKept :
    (before sessions : Sessions) (id : Bytes) (old session : SessionEntry)
    → lookup id sessions ≡ some old
    → OwnerStays old session
    → OwnersKept before sessions
    → OwnersKept before (insert id session sessions)
insert-OwnersKept before sessions id old session found stays own = record {
  kept = λ asked user o.
      Owned-insert sessions id old session asked user found stays (own.kept asked user o);
}

pub insert_new-OwnersKept :
    (before sessions : Sessions) (id : Bytes) (session : SessionEntry)
    → lookup id sessions ≡ none
    → OwnersKept before sessions
    → OwnersKept before (insert id session sessions)
insert_new-OwnersKept before sessions id session new own = record {
  kept = λ asked user o.
      let (entry, at, owns, name) = own.kept asked user o in
      let other : (id == asked) ≡ false = elim (Bool-cases (id == asked)) [
        | inl same ↦
            let here : id ≡ asked = ground (arith, same, bytes_beq_iff id asked) in
            absurd (ground (arith, sym at ∙ ap (λ k. lookup k sessions) (sym here) ∙ new))
        | inr e ↦ e
      ] in
      (entry, ground (arith, other, at, lookup-insert id asked session sessions), owns, name);
}
