-- ===== src/Datapath/Relay/Quiet.antt =====
-- Predicates on the parts of the state that a control frame has nothing to do with
-- (src/datapath_v2.rs, the receive loop).
use swifttunnel_relay.Prelude.{
  ℕ, Bool, true, false, ◌||◌, List, Option, none, some, if◌then◌else◌, ltb, leb, length, Bytes,
  Assoc, Option-cases, inl, inr, ◌≡◌, refl,
}
use swifttunnel_relay.Addr.{SocketAddr}
use swifttunnel_relay.RateLimit.Limiter.{SourceRateLimiter}
use swifttunnel_relay.RateLimit.Pending
use swifttunnel_relay.Sessions.{Sessions}
use swifttunnel_relay.Sessions.Counts.{SourceSessionCounts}
use swifttunnel_relay.Budget.Event.{Budgets}
use swifttunnel_relay.DestPolicy.Permits.{DestPolicy}
use swifttunnel_relay.Packet.Reader.{Parse, got, rejected, panicked}
use swifttunnel_relay.Datapath.Pool.{release}
use swifttunnel_relay.Datapath.Stats.{DropReason, SessionTraffic}
use swifttunnel_relay.Datapath.Relay.{
  Relay, Config, Datagram, Channel, TxPacket, ShardMsg, InboundTunPacket, ResolveTask, try_send,
  max_packet_size,
}
use swifttunnel_relay.Datapath.Relay.Step.{
  Step, Run, going, done, crashed, after, ◌>>=◌, pure, stop, reading,
}
use swifttunnel_relay.Datapath.Relay.Control.{
  refuse, refuse_unless, continue_unless, acquire, give_back, write_buffer, send_control, send_in,
  send_frame, allow_pending,
}

-- What holds of the state where code that did not panic leaves it.
abbrev pub Allows : {A : Type 0} → (A → Relay → Type 0) → (Relay → Type 0) → Step A → Type 0
Allows Q R (going a r) = Q a r
Allows Q R (done r) = R r
Allows Q R crashed = Unit

pub Allows-after :
    {A B : Type 0} (Q : A → Relay → Type 0) (S : B → Relay → Type 0) (R : Relay → Type 0)
    (s : Step A) (f : A → Run B)
    → Allows Q R s
    → ((a : A) (r : Relay) → Q a r → Allows S R (f a r))
    → Allows S R (after s f)
Allows-after Q S R (going a r) f h k = k a r h
Allows-after Q S R (done r) f h k = h
Allows-after Q S R crashed f h k = tt

-- the same, where the handler's end has a predicate of its own
pub Allows-then :
    {A B : Type 0} (Q : A → Relay → Type 0) (T : Relay → Type 0) (S : B → Relay → Type 0)
    (R : Relay → Type 0) (s : Step A) (f : A → Run B)
    → Allows Q T s
    → ((r : Relay) → T r → R r)
    → ((a : A) (r : Relay) → Q a r → Allows S R (f a r))
    → Allows S R (after s f)
Allows-then Q T S R (going a r) f h l k = k a r h
Allows-then Q T S R (done r) f h l k = l r h
Allows-then Q T S R crashed f h l k = tt

pub Allows-reading :
    {A : Type 0} (Q : A → Relay → Type 0) (R : Relay → Type 0) (m : Parse A) (r : Relay)
    → R r
    → ((a : A) → m ≡ got a → Q a r)
    → Allows Q R (reading m r)
Allows-reading Q R (got a) r h k = k a refl
Allows-reading Q R rejected r h k = h
Allows-reading Q R panicked r h k = tt

pub Allows-if :
    {A : Type 0} (b : Bool) (s t : Step A) (Q : A → Relay → Type 0) (R : Relay → Type 0)
    → (b ≡ true → Allows Q R s)
    → (b ≡ false → Allows Q R t)
    → Allows Q R (if b then s else t)
Allows-if true s t Q R k l = k refl
Allows-if false s t Q R k l = l refl

-- A predicate on what is not touched by a control frame.
abbrev pub View : Type 1
View =
    Sessions
    → SourceSessionCounts
    → SourceRateLimiter
    → Budgets
    → DestPolicy
    → Assoc Bytes SessionTraffic
    → Channel TxPacket
    → List (Channel ShardMsg)
    → Option (Channel InboundTunPacket)
    → List ResolveTask
    → Type 0

abbrev pub At : View → Relay → Type 0
At P r =
    P r.sessions r.counts r.limiter r.budgets r.policy r.traffic r.tx_data r.shards r.tun r.resolves

abbrev pub Quiet : {A : Type 0} → View → Run A → Type 0
Quiet P m = (r : Relay) → At P r → Allows (λ _ r'. At P r') (λ r'. At P r') (m r)

module _ (P : View) where
  pub Quiet-bind :
      {A B : Type 0} (m : Run A) (f : A → Run B)
      → Quiet P m
      → ((a : A) → Quiet P (f a))
      → Quiet P (m >>= f)
  Quiet-bind m f k l r h =
      Allows-after (λ _ r'. At P r') (λ _ r'. At P r') (λ r'. At P r') (m r) f (k r h)
        (λ a r' h'. l a r' h')

  pub Quiet-if :
      {A : Type 0} (b : Bool) (m n : Run A) → Quiet P m → Quiet P n → Quiet P (if b then m else n)
  Quiet-if true m n k l = k
  Quiet-if false m n k l = l

  pub pure-Quiet : {A : Type 0} (a : A) → Quiet P (pure a)
  pure-Quiet a r h = h

  pub stop-Quiet : Quiet P (stop {A = Unit {0}})
  stop-Quiet r h = h

  pub refuse-Quiet : (reason : DropReason) → Quiet P (refuse {A = Unit {0}} reason)
  refuse-Quiet reason r h = h

  pub refuse_unless-Quiet : (b : Bool) (reason : DropReason) → Quiet P (refuse_unless b reason)
  refuse_unless-Quiet true reason r h = h
  refuse_unless-Quiet false reason r h = h

  pub continue_unless-Quiet : (b : Bool) → Quiet P (continue_unless b)
  continue_unless-Quiet true r h = h
  continue_unless-Quiet false r h = h

  pub acquire-Quiet : Quiet P acquire
  unfolding acquire
  acquire-Quiet r h = h

  pub give_back-Quiet : (i : ℕ) → Quiet P (give_back i)
  unfolding give_back
  give_back-Quiet i r h = elim (Option-cases (release r.pool i)) [
    | inl e ↦ rw (give_back, e) tt
    | inr (pool', e) ↦ rw (give_back, e) h
  ]

  pub write_buffer-Quiet : (i : ℕ) (bytes : Bytes) → Quiet P (write_buffer i bytes)
  unfolding write_buffer
  write_buffer-Quiet i bytes r h =
      Allows-if (leb r.pool.slots i || ltb max_packet_size (length bytes)) _ _ (λ _ r'. At P r')
        (λ r'. At P r') (λ _. tt) (λ _. h)

  send_control-Quiet : (packet : TxPacket) → Quiet P (send_control packet)
  unfolding send_control
  send_control-Quiet packet r h = elim (Option-cases (try_send r.tx_control packet)) [
    | inl e ↦ rw (send_control, e) (give_back-Quiet packet.buf_idx _ h)
    | inr (tx', e) ↦ rw (send_control, e) h
  ]

  send_in-Quiet :
      (client_addr : SocketAddr) (session_id frame : Bytes) (now : ℕ) (idx : Option ℕ)
      → Quiet P (send_in client_addr session_id frame now idx)
  send_in-Quiet client_addr session_id frame now none r h = h
  send_in-Quiet client_addr session_id frame now (some i) r h =
      Quiet-bind (write_buffer i frame) (λ _. send_control _) (write_buffer-Quiet i frame)
        (λ _. send_control-Quiet _) r h

  pub send_frame-Quiet :
      (client_addr : SocketAddr) (session_id frame : Bytes) (now : ℕ)
      → Quiet P (send_frame client_addr session_id frame now)
  unfolding send_frame
  send_frame-Quiet client_addr session_id frame now =
      Quiet-bind acquire (send_in client_addr session_id frame now) acquire-Quiet
        (send_in-Quiet client_addr session_id frame now)

  pub allow_pending-Quiet : (cfg : Config) (d : Datagram) → Quiet P (allow_pending cfg d)
  unfolding allow_pending
  allow_pending-Quiet cfg d r h =
      elim (Option-cases (Pending.allow cfg.hash_one r.pending d.client_addr.ip d.now)) [
        | inl e ↦ rw (allow_pending, e) tt
        | inr ((pending', allowed), e) ↦ rw (allow_pending, e) h
      ]
