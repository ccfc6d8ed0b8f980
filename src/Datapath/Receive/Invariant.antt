-- ===== src/Datapath/Receive/Invariant.antt =====
-- A round of the receive loop and the invariant of the shared state (src/datapath_v2.rs).
use swifttunnel_relay.Prelude.{
  ℕ, ◌≡◌, refl, arith, Bool, Option, some, if◌then◌else◌, ltb, length, Bytes, List,
}
use swifttunnel_relay.Auth.Ticket.{VerifiedRelayTicket}
use swifttunnel_relay.RateLimit.Window.{packet}
use swifttunnel_relay.Sessions.{Sessions}
use swifttunnel_relay.Datapath.Stats.{auth, too_small}
use swifttunnel_relay.Datapath.Relay.{Relay, Config, Datagram}
use swifttunnel_relay.Datapath.Relay.Step.{
  Step, going, done, crashed, ◌>>◌, pure, Leaves, Leaves-after,
}
use swifttunnel_relay.Datapath.Relay.Control.{allow_source_event, continue_unless, refuse_unless}
use swifttunnel_relay.Datapath.Relay.Sound.{Holds, IsSound, OwnersKept}
use swifttunnel_relay.Datapath.Relay.Keeps.{
  Keeps, Keeps-bind, Keeps-if, pure-Keeps, refuse_unless-Keeps, continue_unless-Keeps,
  allow_source_event-Keeps,
}
use swifttunnel_relay.Datapath.Receive.{
  session_id_len, count_datagram, is_auth_hello, verify_hello, challenge, require_authority,
  admit_session, touch_session, count_ingress, handle_hello,
}
use swifttunnel_relay.Datapath.Receive.Buffer.{IsReceived, slice-Keeps, refuse_if-Keeps}
use swifttunnel_relay.Datapath.Receive.Stages.{
  count_datagram-Keeps, is_auth_hello-Keeps, verify_hello-Keeps, challenge-Keeps,
  require_authority-Keeps, admit_session-Admitted, touch_session-Leaves,
}
use swifttunnel_relay.Datapath.Receive.Hello.{handle_hello-Keeps}
use swifttunnel_relay.Datapath.Receive.Frames.{handle_frame}
use swifttunnel_relay.Datapath.Receive.FrameKeeps.{handle_frame-Keeps}
use swifttunnel_relay.Datapath.Receive.Forward.{handle_packet}
use swifttunnel_relay.Datapath.Receive.ForwardKeeps.{handle_packet-Keeps}
use swifttunnel_relay.Datapath.Receive.Loop.{serve, identify, handle, outcome, receive}

module _ (before : Sessions) (held : List ℕ) (cfg : Config) (d : Datagram)
    (rec : IsReceived d) where
  module _ (session_id : Bytes) (id_len : length session_id ≡ session_id_len) where
    count_ingress-Keeps : Keeps before held (count_ingress cfg d session_id)
    unfolding count_ingress
    count_ingress-Keeps r h = h

    -- after the session is there
    act-Keeps :
        (is_hello : Bool) (ticket : Option VerifiedRelayTicket) (known allowed : Bool)
        → Keeps before held (do
          count_ingress cfg d session_id
          if is_hello then handle_hello cfg d session_id ticket else pure tt
          refuse_unless allowed auth
          handle_frame cfg d session_id known
          handle_packet cfg d session_id known)
    act-Keeps is_hello ticket known allowed =
        Keeps-bind before held (count_ingress cfg d session_id) _ count_ingress-Keeps λ _.
          Keeps-bind before held
            (if is_hello then handle_hello cfg d session_id ticket else pure tt) _
            (Keeps-if before held is_hello _ _
              (handle_hello-Keeps before held cfg d session_id id_len rec ticket)
              (pure-Keeps before held tt))
            λ _.
              Keeps-bind before held (refuse_unless allowed auth) _
                (refuse_unless-Keeps before held allowed auth)
                λ _.
                  Keeps-bind before held (handle_frame cfg d session_id known) _
                    (handle_frame-Keeps before held cfg d session_id id_len rec known)
                    (λ _. handle_packet-Keeps before held cfg d session_id known rec)

    serve-Keeps :
        (is_hello : Bool) (ticket : Option VerifiedRelayTicket)
        → Keeps before held (serve cfg d session_id is_hello ticket)
    unfolding serve
    serve-Keeps is_hello ticket =
        Keeps-bind before held (allow_source_event d.client_addr packet d.now) _
          (allow_source_event-Keeps before held d.client_addr packet d.now)
          λ allowed.
            Keeps-bind before held (continue_unless allowed) _
              (continue_unless-Keeps before held allowed)
              λ _ r h.
                Leaves-after _ _ _ (admit_session cfg d session_id r) _
                  (admit_session-Admitted before held cfg d session_id id_len rec r h)
                  λ _ r' (h', ok).
                    Leaves-after _ _ _ (touch_session cfg d session_id is_hello r') _
                      (touch_session-Leaves before held cfg d session_id id_len rec is_hello r' h'
                        ok)
                      λ (known, allowed') r'' h''. act-Keeps is_hello ticket known allowed' r'' h''

    identify-Keeps : (is_hello : Bool) → Keeps before held (identify cfg d session_id is_hello)
    unfolding identify
    identify-Keeps is_hello =
        Keeps-bind before held (verify_hello cfg d session_id is_hello) _
          (verify_hello-Keeps before held cfg d session_id id_len rec is_hello)
          λ ticket.
            Keeps-bind before held (challenge cfg d session_id ticket) _
              (challenge-Keeps before held cfg d session_id id_len rec ticket)
              λ _.
                Keeps-bind before held (require_authority cfg d session_id ticket) _
                  (require_authority-Keeps before held cfg d session_id id_len rec ticket)
                  (λ _. pure-Keeps before held ticket)

  pub handle-Keeps : Keeps before held (handle cfg d)
  unfolding handle
  handle-Keeps =
      Keeps-bind before held (count_datagram d) _ (count_datagram-Keeps before held d) λ _.
        refuse_if-Keeps before held (ltb d.len session_id_len) too_small _ λ long.
          slice-Keeps before held d rec 0 session_id_len _ (omega arith) (omega arith)
            λ session_id part.
              Keeps-bind before held (is_auth_hello d) _ (is_auth_hello-Keeps before held d rec)
                λ is_hello.
                  Keeps-bind before held (identify cfg d session_id is_hello) _
                    (identify-Keeps session_id (omega (arith, part.size)) is_hello)
                    (λ ticket. serve-Keeps session_id (omega (arith, part.size)) is_hello ticket)

-- what a round ends in
result_of :
    (Q : Relay → Type 0) (s : Step (Unit {0}))
    → Leaves (λ _ r. Q r) Q s
    → (r : Relay) × (outcome s ≡ some r) × Q r
result_of Q (going u r) h = (r, refl, h)
result_of Q (done r) h = (r, refl, h)
result_of Q crashed h = absurd h

-- The receive loop never panics and never waits for room in the pool, whatever bytes it receives in its
-- buffer and from whom. After a datagram the state is still sound: each session stands once, is counted
-- at its source address, and there are at most 65,536; the limiter and the budgets keep their bounds,
-- the drop reasons add up to the drops, and every buffer of the pool is in exactly one place: free, in
-- one message of a channel, or among the `held` that the other threads work on. Every authenticated
-- session is still authenticated, and its user is the same.
pub receive-IsSound :
    (cfg : Config) (d : Datagram) (held : List ℕ) (r : Relay)
    → IsReceived d
    → IsSound held r
    → (r' : Relay) × (receive cfg d r ≡ some r')
      × OwnersKept r.sessions r'.sessions
      × IsSound held r'
unfolding receive
receive-IsSound cfg d held r rec sound =
    let (r', e, h) =
      result_of (λ r'. Holds r.sessions held r') (handle cfg d r)
        (handle-Keeps r.sessions held cfg d rec r (record { kept = λ id user o. o }, sound)) in
    (r', e, h.0, h.1)
