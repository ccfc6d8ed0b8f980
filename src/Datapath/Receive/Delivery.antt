-- ===== src/Datapath/Receive/Delivery.antt =====
-- What a datagram must come with for anything to be forwarded for it (src/datapath_v2.rs, the receive
-- loop).
use swifttunnel_relay.Prelude.{
  ℕ, ◌≡◌, ◌⊎◌, refl, sym, ap, ◌∙◌, arith, Bool, true, false, inl, inr, Option, none, some,
  Bool-cases, Bytes, bytes_eq, lookup, is_some_and, List,
}
use std.Path.{transport}
use swifttunnel_relay.Auth.Mode.{requires_auth}
use swifttunnel_relay.Auth.Ticket.{VerifiedRelayTicket}
use swifttunnel_relay.Sessions.{Sessions}
use swifttunnel_relay.Datapath.Relay.{Relay, Config, Datagram}
use swifttunnel_relay.Datapath.Relay.Step.{Step, going, done, crashed, ◌>>=◌, pure}
use swifttunnel_relay.Datapath.Relay.Sound.{IsSound}
use swifttunnel_relay.Datapath.Relay.Quiet.{Allows, Allows-after, Allows-then, View, At}
use swifttunnel_relay.Datapath.Receive.{
  verify_hello, challenge, require_authority, may_send, lacks_authority, handle_hello,
}
use swifttunnel_relay.Datapath.Receive.Buffer.{IsReceived}
use swifttunnel_relay.Datapath.Receive.Invariant.{receive-IsSound}
use swifttunnel_relay.Datapath.Receive.Identify.{
  IsEvident, IsHello, Tells, challenge-Quiet, require_authority-Allows,
}
use swifttunnel_relay.Datapath.Receive.Touch.{
  Deliveries, Both, IsStable, arrive-Allows, handle_hello-Allows,
}
use swifttunnel_relay.Datapath.Receive.Authority.{
  named, IsUndelivered, IsSender, may_send-IsSender, identify-Allows, handle-Allows, end_of,
}
use swifttunnel_relay.Datapath.Receive.Loop.{serve, identify, handle, receive}

-- what holds of every state holds of a step's result
Allows-const :
    {A : Type 0} (R : Relay → Type 0) (s : Step A) → ((r : Relay) → R r) → Allows (λ _ r. R r) R s
Allows-const R (going a r) h = h r
Allows-const R (done r) h = h r
Allows-const R crashed h = tt

-- the same deliveries as before
abbrev Same : Relay → Deliveries
Same r tx_data shards tun resolves =
    (tx_data ≡ r.tx_data) × (shards ≡ r.shards) × (tun ≡ r.tun) × (resolves ≡ r.resolves)

anything-IsStable : (cfg : Config) (d : Datagram) (id : Bytes) → IsStable cfg d id (λ _. Unit)
anything-IsStable cfg d id = record {
  comes = λ s e u. tt;
  renewed = λ s session e u. tt;
  bound = λ s session ticket e v u. tt;
}

module _ (cfg : Config) (d : Datagram) (rec : IsReceived d) (r : Relay) where
  -- A hello is never forwarded.
  hello-Allows :
      (ticket : Option VerifiedRelayTicket) (s : Relay)
      → IsEvident cfg d (named d) ticket
      → At (Both (λ _. Unit) (Same r)) s
      → Allows
          (λ _ s'. At (Both (λ _. Unit) (Same r)) s')
          (λ s'. At (Both (λ _. Unit) (Same r)) s')
          (serve cfg d (named d) true ticket s)
  unfolding serve
  hello-Allows ticket s v h =
      arrive-Allows cfg d (named d) (λ _. Unit) (Same r) (anything-IsStable cfg d (named d)) _
        (λ s'. At (Both (λ _. Unit) (Same r)) s') true _ s h (λ _ k. k)
        λ known s1 h1.
          Allows-then (λ _ _. ⊥) (λ s'. At (Both (λ _. Unit) (Same r)) s') _
            (λ s'. At (Both (λ _. Unit) (Same r)) s') (handle_hello cfg d (named d) ticket s1) _
            (handle_hello-Allows cfg d (named d) (λ _. Unit) (Same r)
              (anything-IsStable cfg d (named d)) ticket s1 v h1)
            (λ _ k. k) (λ _ _ impossible. absurd impossible)

-- A datagram that is no hello comes out of the checks without a ticket.
verify_hello-false :
    (cfg : Config) (d : Datagram) (id : Bytes) (s : Relay)
    → verify_hello cfg d id false s ≡ going none s
unfolding verify_hello
verify_hello-false cfg d id s = elim (Bool-cases (requires_auth cfg.auth.mode)) [
  | inl e ↦ rw (verify_hello, e) refl
  | inr e ↦ rw (verify_hello, e) refl
]

lacks_none-sends :
    (cfg : Config) (d : Datagram) (sessions : Sessions)
    → requires_auth cfg.auth.mode ≡ true
    → lacks_authority cfg d (named d) none sessions ≡ false
    → is_some_and (lookup (named d) sessions) (may_send cfg d (named d)) ≡ true
unfolding lacks_authority
lacks_none-sends cfg d sessions required e = ground (arith, required, e)

-- What is delivered for a datagram is for no hello and comes from its session's own address, while the
-- session is authenticated and its lease runs, or there is nothing delivered.
abbrev pub IsEarned : Datagram → Relay → Relay → Type 0
IsEarned d r r' = IsUndelivered r r' ⊎ ((IsHello d → ⊥) × IsSender d r.sessions)

abbrev Passed : Relay → View
Passed r sessions counts limiter budgets policy traffic tx_data shards tun resolves =
    (sessions ≡ r.sessions) × Same r tx_data shards tun resolves

module _ (cfg : Config) (d : Datagram) (rec : IsReceived d) (r : Relay) where
  identify-false-Allows :
      (s : Relay)
      → At (Passed r) s
      → Allows
          (λ _ s'. (lacks_authority cfg d (named d) none s'.sessions ≡ false) × At (Passed r) s')
          (λ s'. At (Passed r) s')
          (identify cfg d (named d) false s)
  unfolding identify
  identify-false-Allows s h =
      Allows-after (λ ticket s1. (ticket ≡ none) × At (Passed r) s1) _ _
        (verify_hello cfg d (named d) false s) _
        (transport
          (ap (Allows (λ ticket s1. (ticket ≡ none) × At (Passed r) s1) (λ s'. At (Passed r) s'))
            (sym (verify_hello-false cfg d (named d) s)))
          (refl, h))
        λ ticket s1 (e, h1).
          Allows-after (λ _ s2. At (Passed r) s2) _ _ (challenge cfg d (named d) ticket s1) _
            (challenge-Quiet cfg d (named d) (Passed r) ticket s1 h1)
            λ _ s2 h2.
              Allows-after
                (λ _ s3.
                  (lacks_authority cfg d (named d) ticket s3.sessions ≡ false) × At (Passed r) s3)
                _ _ (require_authority cfg d (named d) ticket s2) (λ _. pure ticket)
                (require_authority-Allows cfg d (named d) (Passed r) ticket s2 h2)
                (λ _ s3 (k, h3).
                  (ap (λ t. lacks_authority cfg d (named d) t s3.sessions) (sym e) ∙ k, h3))

  -- The rest of the handler, after it is known whether this is a hello.
  rest-Allows :
      requires_auth cfg.auth.mode ≡ true
      → (is_hello : Bool) (s : Relay) → Tells d is_hello
      → At (Passed r) s
      → Allows
          (λ _ s'. IsEarned d r s')
          (λ s'. IsEarned d r s')
          ((do ticket ← identify cfg d (named d) is_hello; serve cfg d (named d) is_hello ticket) s)
  rest-Allows required true s tells h =
      Allows-then _ (λ s'. At (Passed r) s') (λ _ s'. IsEarned d r s') (λ s'. IsEarned d r s')
        (identify cfg d (named d) true s) (serve cfg d (named d) true)
        (identify-Allows cfg d rec (Passed r) (named d) true s h) (λ s' k. inl (same s' k.1))
        λ ticket s' (v, allowed, k).
          weaken (serve cfg d (named d) true ticket s')
            (hello-Allows cfg d rec r ticket s' v (tt, k.1))
    where
      same : (s' : Relay) → Same r s'.tx_data s'.shards s'.tun s'.resolves → IsUndelivered r s'
      same s' (a, b, c, e) = record { tx_data = a; shards = b; tun = c; resolves = e }

      weaken :
          (step : Step (Unit {0}))
          → Allows
              (λ _ s'. At (Both (λ _. Unit) (Same r)) s')
              (λ s'. At (Both (λ _. Unit) (Same r)) s')
              step
          → Allows (λ _ s'. IsEarned d r s') (λ s'. IsEarned d r s') step
      weaken (going u s') a = inl (same s' a.1)
      weaken (done s') a = inl (same s' a.1)
      weaken crashed a = tt
  rest-Allows required false s tells h =
      Allows-then _ (λ s'. At (Passed r) s') (λ _ s'. IsEarned d r s') (λ s'. IsEarned d r s')
        (identify cfg d (named d) false s) (serve cfg d (named d) false) (identify-false-Allows s h)
        (λ s' k. inl (record { tx_data = k.1.0; shards = k.1.1; tun = k.1.2; resolves = k.1.3 }))
        λ ticket s' (allowed, k).
          Allows-const (IsEarned d r) (serve cfg d (named d) false ticket s') λ _. inr (
            no_hello tells,
            may_send-IsSender cfg d r.sessions (
                ap (λ m. is_some_and (lookup (named d) m) (may_send cfg d (named d))) (sym k.0)
                ∙ lacks_none-sends cfg d s'.sessions required allowed),
          )
    where
      no_hello : Tells d false → IsHello d → ⊥
      no_hello (inl e) hello = cc
      no_hello (inr n) hello = n hello

-- Where tickets are required, nothing is forwarded to a game server, a client or the TUN device and no
-- host is looked up for a datagram, unless it names an authenticated session whose lease runs, comes
-- from that session's very address and port, and is no hello frame: a hello, with a valid ticket or
-- not, delivers nothing.
pub receive-IsEarned :
    (cfg : Config) (d : Datagram) (held : List ℕ) (r : Relay)
    → IsReceived d
    → IsSound held r
    → requires_auth cfg.auth.mode ≡ true
    → (r' : Relay) × (receive cfg d r ≡ some r')
      × (IsUndelivered r r' ⊎ ((IsHello d → ⊥) × IsSender d r.sessions))
unfolding receive
receive-IsEarned cfg d held r rec sound required =
    let (r', e, _, _) = receive-IsSound cfg d held r rec sound in
    (
      r',
      e,
      end_of (IsEarned d r) (handle cfg d r) r' e (
          handle-Allows cfg d rec (Passed r) (IsEarned d r) r (refl, (refl, refl, refl, refl))
            (λ s k. inl (record { tx_data = k.1.0; shards = k.1.1; tun = k.1.2; resolves = k.1.3 }))
            (rest-Allows cfg d rec r required)),
    )
