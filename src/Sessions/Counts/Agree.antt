-- ===== src/Sessions/Counts/Agree.antt =====
-- The counts and the sessions, where a session comes, moves and goes
-- (src/main.rs, the functions on `source_session_counts`).
use swifttunnel_relay.Prelude.{
  ℕ, ◌+◌, ◌-◌, ◌≡◌, refl, Bool, [], ◌∷◌, Option, none, some, arith, if◌then◌else◌, ◌==◌, Bytes,
  bytes_eq, bytes_beq_iff, lookup, insert, remove, Distinct, lookup-insert, lookup-remove,
  unwrap_or, Option-cases, inl, inr,
}
use swifttunnel_relay.Addr.{IpAddr, ip_eq, ip_beq_iff}
use swifttunnel_relay.Sessions.{SessionEntry, Sessions}
use swifttunnel_relay.Sessions.Counts.{
  SourceSessionCounts, source_session_count, increment_source_session_count,
  decrement_source_session_count, update_source_session_count_for_rebind,
}

pub count-increment :
    (counts : SourceSessionCounts) (ip j : IpAddr)
    → source_session_count (increment_source_session_count counts ip) j
      ≡ (if ip == j then source_session_count counts j + 1 else source_session_count counts j)
unfolding source_session_count increment_source_session_count
count-increment counts ip j =
    ground (arith, ip_beq_iff ip j, lookup-insert ip j (unwrap_or (lookup ip counts) 0 + 1) counts)

pub count-decrement :
    (counts : SourceSessionCounts) (ip j : IpAddr)
    → source_session_count (decrement_source_session_count counts ip) j
      ≡ (if ip == j then source_session_count counts j - 1 else source_session_count counts j)
unfolding source_session_count decrement_source_session_count
count-decrement counts ip j =
    let law = λ (n : ℕ). lookup-insert ip j n counts in
    elim (Option-cases (lookup ip counts)) [
      | inl absent ↦ ground (arith, ip_beq_iff ip j, lookup-remove ip j counts)
      | inr (n, found) ↦
          ground
            (arith, ip_beq_iff ip j, lookup-remove ip j counts, lookup-insert ip j (n - 1) counts)
    ]

-- How many sessions come from an address.
unfoldable pub sessions_from : IpAddr → Sessions → ℕ
sessions_from ip [] = 0
sessions_from ip ((id, session) ∷ rest) =
    (if session.client_addr.ip == ip then 1 else 0) + sessions_from ip rest

abbrev one_if : Bool → ℕ
one_if b = if b then 1 else 0

-- the share of a key's old value in the count
abbrev old_share : IpAddr → Option SessionEntry → ℕ
old_share ip none = 0
old_share ip (some session) = one_if (session.client_addr.ip == ip)

pub sessions_from-insert :
    (ip : IpAddr) (id : Bytes) (session : SessionEntry) (sessions : Sessions)
    → sessions_from ip (insert id session sessions) + old_share ip (lookup id sessions)
      ≡ sessions_from ip sessions + one_if (session.client_addr.ip == ip)
unfolding sessions_from insert lookup
sessions_from-insert ip id session [] = omega arith
sessions_from-insert ip id session ((j, w) ∷ rest) =
    ground (arith, sessions_from-insert ip id session rest)

sessions_from-absent :
    (ip : IpAddr) (id : Bytes) (sessions : Sessions)
    → lookup id sessions ≡ none
    → sessions_from ip (remove id sessions) ≡ sessions_from ip sessions
unfolding sessions_from remove lookup
sessions_from-absent ip id [] h = refl
sessions_from-absent ip id ((j, w) ∷ rest) h = ground (arith, sessions_from-absent ip id rest)

pub sessions_from-remove :
    (ip : IpAddr) (id : Bytes) (sessions : Sessions)
    → Distinct sessions
    → sessions_from ip (remove id sessions) + old_share ip (lookup id sessions)
      ≡ sessions_from ip sessions
unfolding sessions_from remove lookup
sessions_from-remove ip id [] d = omega arith
sessions_from-remove ip id ((j, w) ∷ rest) d = ground (
  arith,
  bytes_beq_iff j id,
  sessions_from-remove ip id rest d.1,
  sessions_from-absent ip j rest d.0,
)

-- The index is right for every address.
pub record Agrees (sessions : Sessions) (counts : SourceSessionCounts) : Type 0 where
  pub agree : (ip : IpAddr) → source_session_count counts ip ≡ sessions_from ip sessions

-- A new session is counted at its address.
pub insert-Agrees :
    (sessions : Sessions) (counts : SourceSessionCounts) (id : Bytes) (session : SessionEntry)
    → lookup id sessions ≡ none
    → Agrees sessions counts
    → Agrees
        (insert id session sessions)
        (increment_source_session_count counts session.client_addr.ip)
insert-Agrees sessions counts id session new a = record {
  agree = λ ip. ground (
    arith,
    a.agree ip,
    count-increment counts session.client_addr.ip ip,
    sessions_from-insert ip id session sessions,
  );
}

-- A session that moves to another address is counted there and no longer at the old one; every other
-- field of it may change too.
pub rebind-Agrees :
    (sessions : Sessions) (counts : SourceSessionCounts) (id : Bytes) (old session : SessionEntry)
    → lookup id sessions ≡ some old
    → Agrees sessions counts
    → Agrees
        (insert id session sessions)
        (update_source_session_count_for_rebind counts old.client_addr.ip session.client_addr.ip)
unfolding update_source_session_count_for_rebind
rebind-Agrees sessions counts id old session found a = record {
  agree = λ ip.
      let from_ip = old.client_addr.ip in
      let to_ip = session.client_addr.ip in
      ground (
        arith,
        found,
        a.agree ip,
        ip_beq_iff from_ip to_ip,
        ip_beq_iff from_ip ip,
        ip_beq_iff to_ip ip,
        count-decrement counts from_ip ip,
        count-increment (decrement_source_session_count counts from_ip) to_ip ip,
        sessions_from-insert ip id session sessions,
      );
}

-- A session that is removed is no longer counted.
pub remove-Agrees :
    (sessions : Sessions) (counts : SourceSessionCounts) (id : Bytes) (old : SessionEntry)
    → Distinct sessions
    → lookup id sessions ≡ some old
    → Agrees sessions counts
    → Agrees (remove id sessions) (decrement_source_session_count counts old.client_addr.ip)
remove-Agrees sessions counts id old d found a = record {
  agree = λ ip. ground (
    arith,
    found,
    a.agree ip,
    count-decrement counts old.client_addr.ip ip,
    sessions_from-remove ip id sessions d,
  );
}
