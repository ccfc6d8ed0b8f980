-- ===== src/Datapath/Receive/Ownership.antt =====
-- Where the owner of a session comes from (src/datapath_v2.rs, the receive loop).
use swifttunnel_relay.Prelude.{
  ◌≡◌, ◌⊎◌, refl, sym, ap, ◌∙◌, arith, Bool, true, false, inl, inr, Option, some, Bool-cases,
  if◌then◌else◌, Bytes, bytes_eq, bytes_beq_iff, ◌==◌, lookup, insert, lookup-insert,
  lookup-insert_self,
}
use std.Path.{transport}
use swifttunnel_relay.Addr.{Ipv4Addr}
use swifttunnel_relay.Auth.Ticket.{VerifiedRelayTicket}
use swifttunnel_relay.Sessions.{SessionEntry, Sessions, is_authenticated}
use swifttunnel_relay.Datapath.Stats.{auth}
use swifttunnel_relay.Datapath.Relay.{Relay, Config, Datagram}
use swifttunnel_relay.Datapath.Relay.Step.{Step, going, done, crashed, pure}
use swifttunnel_relay.Datapath.Relay.Control.{refuse_unless}
use swifttunnel_relay.Datapath.Relay.Sound.{Owned}
use swifttunnel_relay.Datapath.Relay.Quiet.{
  Allows, Allows-after, At, Quiet-bind, refuse_unless-Quiet,
}
use swifttunnel_relay.Datapath.Receive.{new_entry, renew, bind_entry, handle_hello}
use swifttunnel_relay.Datapath.Receive.Buffer.{IsReceived}
use swifttunnel_relay.Datapath.Receive.Identify.{Evidence, IsEvident}
use swifttunnel_relay.Datapath.Receive.Touch.{IsStable, arrive-Allows, handle_hello-Allows}
use swifttunnel_relay.Datapath.Receive.Authority.{named, identify-Allows, handle-Allows, end_of}
use swifttunnel_relay.Datapath.Receive.Frames.{handle_frame}
use swifttunnel_relay.Datapath.Receive.Forward.{ip_to_string, handle_packet}
use swifttunnel_relay.Datapath.Receive.FrameQuiet.{Only, handle_frame-Quiet}
use swifttunnel_relay.Datapath.Receive.ForwardQuiet.{handle_packet-Quiet}
use swifttunnel_relay.Datapath.Receive.Loop.{serve, identify, handle, receive}

-- An owner after a change is the changed session's, or was one before.
Owned-inserted :
    (s : Sessions) (id : Bytes) (session : SessionEntry) (asked user : Bytes)
    → Owned (insert id session s) asked user
    → ((asked ≡ id) × (is_authenticated session.auth_state ≡ true) × (session.user_id ≡ user))
      ⊎ Owned s asked user
Owned-inserted s id session asked user (entry, at, owns, name) = elim (Bool-cases (id == asked)) [
  | inl same ↦
      let here : id ≡ asked = ground (arith, same, bytes_beq_iff id asked) in
      let put : some session ≡ some entry =
        sym (lookup-insert_self id session s)
        ∙ (ap (λ k. lookup k (insert id session s)) here ∙ at) in
      let is : session ≡ entry = ground (arith, put) in
      inl
        (sym here, ap (λ e. is_authenticated e.auth_state) is ∙ owns, ap (λ e. e.user_id) is ∙ name)
  | inr other ↦ inr (entry, ground (arith, other, at, lookup-insert id asked session s), owns, name)
]

-- The datagram has made this user the owner of this session.
abbrev pub IsGiven : Config → Datagram → Bytes → Bytes → Type 0
IsGiven cfg d id user =
    (id ≡ named d)
    × (ticket : VerifiedRelayTicket) × Evidence cfg d (named d) ticket
    × (ticket.user_id ≡ user)

record IsSourced (cfg : Config) (d : Datagram) (before s : Sessions) : Type 0 where
  source : (id user : Bytes) → Owned s id user → Owned before id user ⊎ IsGiven cfg d id user

module _ (cfg : Config) (d : Datagram) (before : Sessions) where
  insert-IsSourced :
      (s : Sessions) (session : SessionEntry)
      → ((user : Bytes)
          → is_authenticated session.auth_state ≡ true
          → session.user_id ≡ user
          → Owned before (named d) user ⊎ IsGiven cfg d (named d) user)
      → IsSourced cfg d before s
      → IsSourced cfg d before (insert (named d) session s)
  insert-IsSourced s session given known = record {
    source = λ id user o. elim (Owned-inserted s (named d) session id user o) [
      | inl (here, owns, name) ↦
          transport (ap (λ k. Owned before k user ⊎ IsGiven cfg d k user) (sym here))
            (given user owns name)
      | inr old ↦ known.source id user old
    ];
  }

  stable : IsStable cfg d (named d) (IsSourced cfg d before)
  unfolding new_entry renew bind_entry
  stable = record {
    comes = λ s e known.
        insert-IsSourced s (new_entry cfg d (named d))
          (λ user owns name. absurd (ground (arith, owns))) known;
    renewed = λ s session e known.
        insert-IsSourced s (renew cfg d (named d) session)
          (λ user owns name. known.source (named d) user (session, e, owns, name)) known;
    bound = λ s session ticket e v known.
        insert-IsSourced s (bind_entry cfg d (named d) ticket session)
          (λ user owns name. inr (refl, ticket, v, name)) known;
  }

  renamed :
      (s : Sessions) (session : SessionEntry) (ip : Ipv4Addr)
      → lookup (named d) s ≡ some session
      → is_authenticated session.auth_state ≡ false
      → IsSourced cfg d before s
      → IsSourced cfg d before (insert (named d) (record session { user_id = ip_to_string ip }) s)
  renamed s session ip e free known =
      insert-IsSourced s (record session { user_id = ip_to_string ip })
        (λ user owns name. absurd (ground (arith, owns, free))) known

  abbrev Sourced : Relay → Type 0
  Sourced r = At (Only (IsSourced cfg d before)) r

  hello-Allows :
      (is_hello : Bool) (ticket : Option VerifiedRelayTicket) (r : Relay)
      → IsEvident cfg d (named d) ticket
      → Sourced r
      → Allows
          (λ _ r'. Sourced r')
          (λ r'. Sourced r')
          ((if is_hello then handle_hello cfg d (named d) ticket else pure tt) r)
  hello-Allows false ticket r v h = h
  hello-Allows true ticket r v h = weaken (handle_hello cfg d (named d) ticket r) (
      handle_hello-Allows cfg d (named d) (IsSourced cfg d before) (λ _ _ _ _. Unit) stable ticket r
        v h)
    where
      weaken :
          (step : Step (Unit {0}))
          → Allows (λ _ _. ⊥) (λ r'. Sourced r') step
          → Allows (λ _ r'. Sourced r') (λ r'. Sourced r') step
      weaken (going u s) a = absurd a
      weaken (done s) a = a
      weaken crashed a = tt

  serve-Allows :
      (is_hello : Bool) (ticket : Option VerifiedRelayTicket) (r : Relay)
      → IsEvident cfg d (named d) ticket
      → Sourced r
      → Allows (λ _ r'. Sourced r') (λ r'. Sourced r') (serve cfg d (named d) is_hello ticket r)
  unfolding serve
  serve-Allows is_hello ticket r v h =
      arrive-Allows cfg d (named d) (IsSourced cfg d before) (λ _ _ _ _. Unit) stable _
        (λ r'. Sourced r') is_hello _ r h (λ _ k. k)
        λ known s k.
          Allows-after (λ _ s1. Sourced s1) _ _
            ((if is_hello then handle_hello cfg d (named d) ticket else pure tt) s) _
            (hello-Allows is_hello ticket s v k)
            λ _ s1 k1.
              Quiet-bind (Only (IsSourced cfg d before)) (refuse_unless known.1 auth) _
                (refuse_unless-Quiet (Only (IsSourced cfg d before)) known.1 auth)
                (λ _.
                  Quiet-bind (Only (IsSourced cfg d before)) (handle_frame cfg d (named d) known.0)
                    (λ _. handle_packet cfg d (named d) known.0)
                    (handle_frame-Quiet cfg d (named d) (IsSourced cfg d before) known.0)
                    (λ _.
                      handle_packet-Quiet cfg d (named d) (IsSourced cfg d before) renamed known.0))
                s1 k1

-- An authenticated session has its owner from a ticket: one that is authenticated after a datagram was
-- so before with the same user, or it is the session that the datagram names, and the datagram carries
-- a signed ticket of this session that is valid at this time and names the user.
pub receive-owner :
    (cfg : Config) (d : Datagram) (r r' : Relay) (id user : Bytes)
    → IsReceived d
    → receive cfg d r ≡ some r'
    → Owned r'.sessions id user
    → Owned r.sessions id user ⊎ IsGiven cfg d id user
unfolding receive
receive-owner cfg d r r' id user rec e o =
    let last : Sourced cfg d r.sessions r' =
      end_of (Sourced cfg d r.sessions) (handle cfg d r) r' e (
        handle-Allows cfg d rec (Only (IsSourced cfg d r.sessions)) (Sourced cfg d r.sessions) r
          (record { source = λ id user o. inl o }, tt) (λ _ h. h)
          λ is_hello s _ h.
            Allows-after _ _ (Sourced cfg d r.sessions) (identify cfg d (named d) is_hello s)
              (serve cfg d (named d) is_hello)
              (identify-Allows cfg d rec (Only (IsSourced cfg d r.sessions)) (named d) is_hello s h)
              (λ ticket s' (v, allowed, h').
                serve-Allows cfg d r.sessions is_hello ticket s' v h')) in
    last.0.source id user o
