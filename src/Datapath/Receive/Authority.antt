-- ===== src/Datapath/Receive/Authority.antt =====
-- With authentication, what a datagram may do before its sender is known (src/datapath_v2.rs, the
-- receive loop).
use swifttunnel_relay.Prelude.{
  ℕ, ◌<◌, ◌≡◌, refl, sym, ap, arith, Bool, true, false, not, inl, inr, none, some, Option,
  Option-cases, Bool-cases, ltb, take, is_some_and, Bytes, bytes_eq, lookup, slice-some, List,
}
use std.Path.{transport}
use swifttunnel_relay.Auth.Mode.{requires_auth}
use swifttunnel_relay.Auth.Ticket.{VerifiedRelayTicket}
use swifttunnel_relay.Addr.{socket_eq, socket_beq_iff}
use swifttunnel_relay.Sessions.{
  SessionEntry, Sessions, is_authenticated, session_auth_is_current,
  authenticated_session_source_allowed,
}
use swifttunnel_relay.Packet.Reader.{read_slice, got}
use swifttunnel_relay.Datapath.Stats.{too_small}
use swifttunnel_relay.Datapath.Relay.{Relay, Config, Datagram}
use swifttunnel_relay.Datapath.Relay.Step.{Step, going, done, crashed, ◌>>=◌, pure, reading}
use swifttunnel_relay.Datapath.Relay.Control.{refuse_unless}
use swifttunnel_relay.Datapath.Relay.Sound.{IsSound}
use swifttunnel_relay.Datapath.Relay.Quiet.{
  Allows, Allows-after, Allows-then, Allows-reading, View, At, refuse_unless-Quiet,
}
use swifttunnel_relay.Datapath.Receive.{
  session_id_len, count_datagram, is_auth_hello, verify_hello, challenge, may_send, lacks_authority,
  require_authority,
}
use swifttunnel_relay.Datapath.Receive.Buffer.{IsReceived}
use swifttunnel_relay.Datapath.Receive.Invariant.{receive-IsSound}
use swifttunnel_relay.Datapath.Receive.Identify.{
  Evidence, IsEvident, Tells, is_auth_hello-Tells, verify_hello-Allows, challenge-Quiet,
  require_authority-Allows,
}
use swifttunnel_relay.Datapath.Receive.Loop.{serve, identify, handle, outcome, receive}

-- the session that a datagram names
abbrev pub named : Datagram → Bytes
named d = take session_id_len d.buf

-- The relay forwards nothing for it and looks nothing up.
pub record IsUndelivered (r r' : Relay) : Type 0 where
  pub tx_data : r'.tx_data ≡ r.tx_data
  pub shards : r'.shards ≡ r.shards
  pub tun : r'.tun ≡ r.tun
  pub resolves : r'.resolves ≡ r.resolves

-- Nothing that belongs to a session has changed.
pub record IsUntouched (r r' : Relay) : Type 0 where
  pub undelivered : IsUndelivered r r'
  pub sessions : r'.sessions ≡ r.sessions
  pub counts : r'.counts ≡ r.counts
  pub limiter : r'.limiter ≡ r.limiter
  pub budgets : r'.budgets ≡ r.budgets
  pub policy : r'.policy ≡ r.policy
  pub traffic : r'.traffic ≡ r.traffic

abbrev Unmoved : Relay → View
Unmoved r sessions counts limiter budgets policy traffic tx_data shards tun resolves =
    (sessions ≡ r.sessions)
    × (counts ≡ r.counts)
    × (limiter ≡ r.limiter)
    × (budgets ≡ r.budgets)
    × (policy ≡ r.policy)
    × (traffic ≡ r.traffic)
    × (tx_data ≡ r.tx_data)
    × (shards ≡ r.shards)
    × (tun ≡ r.tun)
    × (resolves ≡ r.resolves)

Unmoved-IsUntouched : (r r' : Relay) → At (Unmoved r) r' → IsUntouched r r'
Unmoved-IsUntouched r r' (s, c, l, b, p, t, x, sh, tu, res) = record {
  undelivered = record { tx_data = x; shards = sh; tun = tu; resolves = res };
  sessions = s;
  counts = c;
  limiter = l;
  budgets = b;
  policy = p;
  traffic = t;
}

-- the session id that is read is the one in front
read_id-named :
    (d : Datagram) (id : Bytes)
    → IsReceived d
    → read_slice d.buf 0 session_id_len ≡ got id
    → id ≡ named d
unfolding read_slice
read_id-named d id rec e =
    ground (arith, e, slice-some d.buf 0 session_id_len (omega arith) (omega (arith, rec.size)))

module _ (cfg : Config) (d : Datagram) (rec : IsReceived d) where
  module _ (P : View) (session_id : Bytes) where
    -- what is known of a datagram that passes the checks
    pub identify-Allows :
        (is_hello : Bool) (r : Relay)
        → At P r
        → Allows
            (λ ticket r'.
              IsEvident cfg d session_id ticket
              × (lacks_authority cfg d session_id ticket r'.sessions ≡ false)
              × At P r')
            (λ r'. At P r')
            (identify cfg d session_id is_hello r)
    unfolding identify
    identify-Allows is_hello r h =
        Allows-after (λ ticket r1. IsEvident cfg d session_id ticket × At P r1) _ _
          (verify_hello cfg d session_id is_hello r) _
          (verify_hello-Allows cfg d session_id P is_hello r h)
          λ ticket r1 (v, h1).
            Allows-after (λ _ r2. At P r2) _ _ (challenge cfg d session_id ticket r1) _
              (challenge-Quiet cfg d session_id P ticket r1 h1)
              λ _ r2 h2.
                Allows-after
                  (λ _ r3. (lacks_authority cfg d session_id ticket r3.sessions ≡ false) × At P r3)
                  _ _ (require_authority cfg d session_id ticket r2) (λ _. pure ticket)
                  (require_authority-Allows cfg d session_id P ticket r2 h2)
                  (λ _ r3 (e, h3). (v, e, h3))

  -- The handler, by what its parts do with the session that the datagram names.
  pub handle-Allows :
      (P : View) (R : Relay → Type 0) (r : Relay)
      → At P r
      → ((r' : Relay) → At P r' → R r')
      → ((is_hello : Bool) (r' : Relay)
          → Tells d is_hello
          → At P r'
          → Allows
              (λ _ r''. R r'')
              R
              ((do
                ticket ← identify cfg d (named d) is_hello
                serve cfg d (named d) is_hello ticket)
                r'))
      → Allows (λ _ r'. R r') R (handle cfg d r)
  unfolding handle count_datagram
  handle-Allows P R r h leave k =
      Allows-then (λ _ r1. At P r1) (λ r1. At P r1) (λ _ r'. R r') R
        (refuse_unless (not (ltb d.len session_id_len)) too_small _) _
        (refuse_unless-Quiet P (not (ltb d.len session_id_len)) too_small _ h) leave
        λ _ r1 h1.
          Allows-then (λ id r2. (id ≡ named d) × At P r2) (λ r2. At P r2) (λ _ r'. R r') R
            (reading (read_slice d.buf 0 session_id_len) r1) _
            (Allows-reading _ _ (read_slice d.buf 0 session_id_len) r1 h1
              (λ id e. (read_id-named d id rec e, h1)))
            leave
            λ id r2 (e, h2).
              Allows-then (λ is_hello r3. Tells d is_hello × At P r3) (λ r3. At P r3) (λ _ r'. R r')
                R (is_auth_hello d r2) _ (is_auth_hello-Tells P d r2 h2) leave
                λ is_hello r3 (tells, h3).
                  transport
                    (ap
                      (λ i.
                        Allows (λ _ r'. R r') R
                          ((do ticket ← identify cfg d i is_hello; serve cfg d i is_hello ticket)
                            r3))
                      (sym e))
                    (k is_hello r3 tells h3)

-- what a round is known to end in, from what it allows
pub end_of :
    (R : Relay → Type 0) (s : Step (Unit {0})) (r : Relay)
    → outcome s ≡ some r
    → Allows (λ _ r'. R r') R s
    → R r
end_of R (going u r') r e a = transport (ap R (ground (arith, e))) a
end_of R (done r') r e a = transport (ap R (ground (arith, e))) a
end_of R crashed r e a = absurd (ground (arith, e))

-- The datagram's session is authenticated, its lease runs, and the datagram comes from its address.
abbrev pub IsSender : Datagram → Sessions → Type 0
IsSender d sessions =
    (session : SessionEntry) × (expires_at : ℕ) × (lookup (named d) sessions ≡ some session)
    × (is_authenticated session.auth_state ≡ true)
    × (session.lease_expires_at_unix ≡ some expires_at)
    × (d.now_unix < expires_at)
    × (session.client_addr ≡ d.client_addr)

pub may_send-IsSender :
    (cfg : Config) (d : Datagram) (sessions : Sessions)
    → is_some_and (lookup (named d) sessions) (may_send cfg d (named d)) ≡ true
    → IsSender d sessions
unfolding may_send session_auth_is_current authenticated_session_source_allowed
may_send-IsSender cfg d sessions yes_sent = elim (Option-cases (lookup (named d) sessions)) [
  | inl e ↦ absurd (ground (arith, e, yes_sent))
  | inr (session, e) ↦ elim (Option-cases session.lease_expires_at_unix) [
    | inl no_lease ↦ absurd (ground (arith, e, no_lease, yes_sent))
    | inr (expires_at, lease) ↦ (
      session,
      expires_at,
      e,
      ground (arith, e, lease, yes_sent),
      lease,
      ground (arith, e, lease, yes_sent),
      ground (arith, e, lease, yes_sent, socket_beq_iff session.client_addr d.client_addr),
    )
  ]
]

may_not_send :
    (cfg : Config) (d : Datagram) (sessions : Sessions)
    → (IsSender d sessions → ⊥)
    → is_some_and (lookup (named d) sessions) (may_send cfg d (named d)) ≡ false
may_not_send cfg d sessions n =
    elim (Bool-cases (is_some_and (lookup (named d) sessions) (may_send cfg d (named d)))) [
      | inl e ↦ absurd (n (may_send-IsSender cfg d sessions e))
      | inr e ↦ e
    ]

-- no ticket, and no session that may send
lacks-true :
    (cfg : Config) (d : Datagram) (sessions : Sessions)
    → requires_auth cfg.auth.mode ≡ true
    → is_some_and (lookup (named d) sessions) (may_send cfg d (named d)) ≡ false
    → lacks_authority cfg d (named d) none sessions ≡ true
unfolding lacks_authority
lacks-true cfg d sessions required strange = ground (arith, required, strange)

-- Where tickets are required, a datagram without a valid one that does not come from the very address
-- and port of an authenticated session whose lease runs has no part in any session: no session is
-- created, changed, moved or kept alive, the sessions counted at each source, the sources' rate limits,
-- the account budgets, the destination policy and the traffic counters of the sessions stay as they
-- were, and nothing is forwarded or looked up. Left open are the drop counters, the limiter of pending
-- hellos, the replay cache and the control frames in answer.
pub receive-IsUntouched :
    (cfg : Config) (d : Datagram) (held : List ℕ) (r : Relay)
    → IsReceived d
    → IsSound held r
    → requires_auth cfg.auth.mode ≡ true
    → (IsSender d r.sessions → ⊥)
    → ((ticket : VerifiedRelayTicket) → Evidence cfg d (named d) ticket → ⊥)
    → (r' : Relay) × (receive cfg d r ≡ some r') × IsUntouched r r'
unfolding receive
receive-IsUntouched cfg d held r rec sound required stranger no_ticket =
    let (r', e, _, _) = receive-IsSound cfg d held r rec sound in
    (
      r',
      e,
      Unmoved-IsUntouched r r' (
          end_of (λ s. At (Unmoved r) s) (handle cfg d r) r' e
            (handle-Allows cfg d rec (Unmoved r) (λ s. At (Unmoved r) s) r
              (refl, refl, refl, refl, refl, refl, refl, refl, refl, refl) (λ _ h. h) refused)),
    )
  where
    impossible :
        (ticket : Option VerifiedRelayTicket) (s : Relay)
        → IsEvident cfg d (named d) ticket
        → lacks_authority cfg d (named d) ticket s.sessions ≡ false
        → s.sessions ≡ r.sessions
        → ⊥
    impossible (some ticket) s v allowed same = no_ticket ticket v
    impossible none s v allowed same = ground (
      arith,
      allowed,
      ap (lacks_authority cfg d (named d) none) same,
      lacks-true cfg d r.sessions required (may_not_send cfg d r.sessions stranger),
    )

    refused :
        (is_hello : Bool) (s : Relay)
        → Tells d is_hello
        → At (Unmoved r) s
        → Allows
            (λ _ s'. At (Unmoved r) s')
            (λ s'. At (Unmoved r) s')
            ((do ticket ← identify cfg d (named d) is_hello; serve cfg d (named d) is_hello ticket)
              s)
    refused is_hello s tells h =
        Allows-after _ _ (λ s'. At (Unmoved r) s') (identify cfg d (named d) is_hello s)
          (λ ticket. serve cfg d (named d) is_hello ticket)
          (identify-Allows cfg d rec (Unmoved r) (named d) is_hello s h)
          (λ ticket s' (v, allowed, h'). absurd (impossible ticket s' v allowed h'.0))
