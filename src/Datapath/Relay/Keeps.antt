-- ===== src/Datapath/Relay/Keeps.antt =====
-- The steps on the shared state and its invariant (src/datapath_v2.rs).
use swifttunnel_relay.Prelude.{
  ℕ, ◌<◌, ◌≤◌, ◌≡◌, refl, arith, Bool, true, false, ◌||◌, Option, none, some, List, ◌∷◌, inl, inr,
  Option-cases, if◌then◌else◌, ltb, leb, length, Bytes,
}
use swifttunnel_relay.Addr.{SocketAddr}
use swifttunnel_relay.RateLimit.Window.{SourceLimitKind}
use swifttunnel_relay.RateLimit.Limiter
use swifttunnel_relay.RateLimit.Limiter.Isolation.{allow-IsValid}
use swifttunnel_relay.RateLimit.Pending.{allow_bounded}
use swifttunnel_relay.Sessions.{Sessions}
use swifttunnel_relay.Datapath.Pool.{BufferPool, try_acquire, release}
use swifttunnel_relay.Datapath.Stats.{DropReason, rate_limit, pool, tx_queue, fetch_add}
use swifttunnel_relay.Datapath.Stats.Drops.{drop_in-AreTotalled, drop_out-AreTotalled}
use swifttunnel_relay.Datapath.Relay.{Relay, Config, Datagram, TxPacket, try_send, max_packet_size}
use swifttunnel_relay.Datapath.Relay.Step.{
  Step, Run, going, crashed, ◌>>=◌, ◌>>◌, pure, stop, Leaves, Leaves-after,
}
use swifttunnel_relay.Datapath.Relay.Control.{
  refuse, refuse_unless, continue_unless, count_in, count_out, count_exhausted, acquire, give_back,
  write_buffer, send_control, send_in, send_frame, allow_source_event, allow_pending,
}
use swifttunnel_relay.Datapath.Relay.Sound.{
  Holds, IsLimited, Acquired, acquire-IsPooled, Released, release-IsPooled, queued-try_send, weigh,
}

abbrev pub Keeps : {A : Type 0} → Sessions → List ℕ → Run A → Type 0
Keeps before held m =
    (r : Relay)
    → Holds before held r
    → Leaves (λ _ r'. Holds before held r') (λ r'. Holds before held r') (m r)

module _ (before : Sessions) (held : List ℕ) where
  pub Keeps-bind :
      {A B : Type 0} (m : Run A) (f : A → Run B)
      → Keeps before held m
      → ((a : A) → Keeps before held (f a))
      → Keeps before held (m >>= f)
  Keeps-bind m f k l r h =
      Leaves-after (λ _ r'. Holds before held r') (λ _ r'. Holds before held r')
        (λ r'. Holds before held r') (m r) f (k r h) (λ a r' h'. l a r' h')

  pub Keeps-if :
      {A : Type 0} (b : Bool) (m n : Run A)
      → Keeps before held m
      → Keeps before held n
      → Keeps before held (if b then m else n)
  Keeps-if true m n k l = k
  Keeps-if false m n k l = l

  -- the same, where the state is in each branch
  pub Leaves-if :
      {A : Type 0} (b : Bool) (s t : Step A) (Q : A → Relay → Type 0) (R : Relay → Type 0)
      → (b ≡ true → Leaves Q R s)
      → (b ≡ false → Leaves Q R t)
      → Leaves Q R (if b then s else t)
  Leaves-if true s t Q R k l = k refl
  Leaves-if false s t Q R k l = l refl

  pub Keeps-if_at :
      {A : Type 0} (b : Bool) (m n : Run A) (r : Relay)
      → Keeps before held m
      → Keeps before held n
      → Holds before held r
      → Leaves (λ _ r'. Holds before held r') (λ r'. Holds before held r') (if b then m r else n r)
  Keeps-if_at true m n r k l h = k r h
  Keeps-if_at false m n r k l h = l r h

  pub pure-Keeps : {A : Type 0} (a : A) → Keeps before held (pure a)
  pure-Keeps a r h = h

  pub stop-Keeps : Keeps before held (stop {A = Unit {0}})
  stop-Keeps r h = h

  pub count_in-Keeps : (reason : DropReason) → Keeps before held (count_in reason)
  count_in-Keeps reason r (own, (reg, lim, bud, tot, buf)) =
      (own, (reg, lim, bud, drop_in-AreTotalled r.stats reason tot, buf))

  pub count_out-Keeps : (reason : DropReason) → Keeps before held (count_out reason)
  count_out-Keeps reason r (own, (reg, lim, bud, tot, buf)) =
      (own, (reg, lim, bud, drop_out-AreTotalled r.stats reason tot, buf))

  pub refuse-Keeps : (reason : DropReason) → Keeps before held (refuse {A = Unit {0}} reason)
  refuse-Keeps reason r (own, (reg, lim, bud, tot, buf)) =
      (own, (reg, lim, bud, drop_in-AreTotalled r.stats reason tot, buf))

  pub refuse_unless-Keeps :
      (ok : Bool) (reason : DropReason) → Keeps before held (refuse_unless ok reason)
  refuse_unless-Keeps true reason r h = h
  refuse_unless-Keeps false reason r h = refuse-Keeps reason r h

  pub continue_unless-Keeps : (ok : Bool) → Keeps before held (continue_unless ok)
  continue_unless-Keeps true r h = h
  continue_unless-Keeps false r h = h

  pub none_left-Keeps : Keeps before held (count_out pool >> count_exhausted)
  none_left-Keeps r h = count_out-Keeps pool r h

  pub none_left_in-Keeps : Keeps before held (count_in pool >> count_exhausted)
  none_left_in-Keeps r h = count_in-Keeps pool r h

  -- what is known of a buffer that was asked for
  abbrev pub InHand : Option ℕ → Relay → Type 0
  InHand none r = Holds before held r
  InHand (some i) r = (i < r.pool.slots) × Holds before (i ∷ held) r

  in_hand :
      (r : Relay) (result : BufferPool × Option ℕ)
      → Holds before held r
      → Acquired held r.tx_control r.tx_data r.shards result
      → InHand result.1 (record r { pool = result.0 })
  in_hand r (p, none) (own, (reg, lim, bud, tot, buf)) a = (own, (reg, lim, bud, tot, a))
  in_hand r (p, some i) (own, (reg, lim, bud, tot, buf)) a = (a.0, (own, (reg, lim, bud, tot, a.1)))

  pub acquire-InHand :
      (r : Relay) → Holds before held r → Leaves InHand (λ r'. Holds before held r') (acquire r)
  unfolding acquire
  acquire-InHand r h =
      in_hand r (try_acquire r.pool) h
        (acquire-IsPooled held r.tx_control r.tx_data r.shards r.pool h.1.4)

  -- A buffer in hand is given back.
  pub give_back-Leaves :
      (i : ℕ) (r : Relay)
      → i < r.pool.slots
      → Holds before (i ∷ held) r
      → Leaves (λ _ r'. Holds before held r') (λ r'. Holds before held r') (give_back i r)
  unfolding give_back
  give_back-Leaves i r small (own, (reg, lim, bud, tot, buf)) =
      cases (release r.pool i)
        (release-IsPooled held r.tx_control r.tx_data r.shards r.pool i small buf)
    where
      cases :
          (result : Option BufferPool)
          → Released held r.tx_control r.tx_data r.shards result
          → Leaves
              (λ _ r'. Holds before held r')
              (λ r'. Holds before held r')
              (elim result [ none ↦ crashed | some pool' ↦ going tt (record r { pool = pool' }) ])
      cases none p = absurd p
      cases (some pool') p = (own, (reg, lim, bud, tot, p))

  -- A buffer in hand is written, with no more than it holds.
  pub write_buffer-Leaves :
      (i : ℕ) (bytes : Bytes) (r : Relay)
      → length bytes ≤ max_packet_size
      → i < r.pool.slots
      → Holds before (i ∷ held) r
      → Leaves
          (λ _ r'. (i < r'.pool.slots) × Holds before (i ∷ held) r')
          (λ r'. Holds before held r')
          (write_buffer i bytes r)
  unfolding write_buffer
  write_buffer-Leaves i bytes r fits small h =
      let inside : (leb r.pool.slots i || ltb max_packet_size (length bytes)) ≡ false =
        ground arith in
      rw inside (small, h)

  -- A buffer in hand goes to the transmit thread, or back.
  pub send_control-Leaves :
      (packet : TxPacket) (r : Relay)
      → packet.buf_idx < r.pool.slots
      → Holds before (packet.buf_idx ∷ held) r
      → Leaves (λ _ r'. Holds before held r') (λ r'. Holds before held r') (send_control packet r)
  unfolding send_control weigh
  send_control-Leaves packet r small (own, (reg, lim, bud, tot, buf)) =
      elim (Option-cases (try_send r.tx_control packet)) [
        | inl e ↦
            rw (send_control, e)
              (give_back-Leaves packet.buf_idx _ small
                (own, (reg, lim, bud, drop_out-AreTotalled r.stats tx_queue tot, buf)))
        | inr (tx', e) ↦
            rw (send_control, e)
              (
                own,
                (
                  reg,
                  lim,
                  bud,
                  tot,
                  record {
                    indices = buf.indices;
                    whole = λ weight.
                        omega (
                          arith,
                          buf.whole weight,
                          queued-try_send weight r.tx_control tx' packet e,
                        );
                  },
                ),
              )
      ]

  send_in-Leaves :
      (client_addr : SocketAddr) (session_id frame : Bytes) (now : ℕ)
      → length frame ≤ max_packet_size
      → (idx : Option ℕ) (r : Relay) → InHand idx r
      → Leaves
          (λ _ r'. Holds before held r')
          (λ r'. Holds before held r')
          (send_in client_addr session_id frame now idx r)
  send_in-Leaves client_addr session_id frame now fits none r h = none_left-Keeps r h
  send_in-Leaves client_addr session_id frame now fits (some i) r (small, h) =
      Leaves-after _ _ _ (write_buffer i frame r) _ (write_buffer-Leaves i frame r fits small h)
        (λ _ r' (small', h'). send_control-Leaves _ r' small' h')

  pub send_frame-Keeps :
      (client_addr : SocketAddr) (session_id frame : Bytes) (now : ℕ)
      → length frame ≤ max_packet_size
      → Keeps before held (send_frame client_addr session_id frame now)
  unfolding send_frame
  send_frame-Keeps client_addr session_id frame now fits r h =
      Leaves-after InHand _ _ (acquire r) (send_in client_addr session_id frame now)
        (acquire-InHand r h)
        (λ idx r' h'. send_in-Leaves client_addr session_id frame now fits idx r' h')

  pub allow_source_event-Keeps :
      (client_addr : SocketAddr) (kind : SourceLimitKind) (now : ℕ)
      → Keeps before held (allow_source_event client_addr kind now)
  unfolding allow_source_event
  allow_source_event-Keeps client_addr kind now r (own, (reg, lim, bud, tot, buf)) =
      let lim' : IsLimited (Limiter.allow r.limiter client_addr.ip kind now).0 r.pending = record {
        valid = allow-IsValid r.limiter client_addr.ip kind now lim.valid;
        buckets = lim.buckets;
      } in
      Leaves-if (Limiter.allow r.limiter client_addr.ip kind now).1 _ _ _ _
        (λ _. (own, (reg, lim', bud, tot, buf)))
        (λ _. (
          own,
          (
            reg,
            lim',
            bud,
            drop_in-AreTotalled
                (record r.stats { throttled_users = fetch_add r.stats.throttled_users 1 })
                rate_limit tot,
            buf,
          ),
        ))

  pub allow_pending-Keeps : (cfg : Config) (d : Datagram) → Keeps before held (allow_pending cfg d)
  unfolding allow_pending
  allow_pending-Keeps cfg d r (own, (reg, lim, bud, tot, buf)) =
      let (bucket, _, pending', e, size, _, _) =
        allow_bounded cfg.hash_one r.pending d.client_addr.ip d.now lim.buckets in
      rw (allow_pending, e)
        (
          own,
          (
            reg,
            record { valid = lim.valid; buckets = omega (arith, lim.buckets, size) },
            bud,
            tot,
            buf,
          ),
        )
