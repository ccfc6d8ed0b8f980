-- ===== src/Datapath/Receive/Buffer.antt =====
-- The receive buffer and the reads of it (src/datapath_v2.rs).
use swifttunnel_relay.Prelude.{
  ℕ, ◌≤◌, ◌≡◌, refl, arith, Bool, true, false, not, length, Bytes, List,
}
use swifttunnel_relay.Sessions.{Sessions}
use swifttunnel_relay.Packet.Reader.{read_slice, Gives-read_slice, IsPart}
use swifttunnel_relay.Datapath.Stats.{DropReason}
use swifttunnel_relay.Datapath.Relay.{Datagram, max_packet_size}
use swifttunnel_relay.Datapath.Relay.Step.{Run, ◌>>=◌, ◌>>◌, reading, Leaves-after, Leaves-reading}
use swifttunnel_relay.Datapath.Relay.Control.{refuse_unless}
use swifttunnel_relay.Datapath.Relay.Sound.{Holds}
use swifttunnel_relay.Datapath.Relay.Keeps.{Keeps, refuse-Keeps}

-- What `recv_from` promises: the datagram stands in the buffer, which has MAX_PACKET_SIZE bytes.
pub record IsReceived (d : Datagram) : Type 0 where
  pub size : length d.buf ≡ max_packet_size
  pub inside : d.len ≤ max_packet_size

module _ (before : Sessions) (held : List ℕ) where
  pub refuse_if-Keeps :
      (b : Bool) (reason : DropReason) (m : Run (Unit {0}))
      → (b ≡ false → Keeps before held m)
      → Keeps before held (refuse_unless (not b) reason >> m)
  refuse_if-Keeps true reason m k r h = refuse-Keeps before held reason r h
  refuse_if-Keeps false reason m k r h = k refl r h

  -- a step after a slice of the buffer has been read
  pub slice-Keeps :
      {A : Type 0} (d : Datagram) (rec : IsReceived d) (first last : ℕ) (f : Bytes → Run A)
      → first ≤ last
      → last ≤ 1600
      → ((part : Bytes) → IsPart d.buf first last part → Keeps before held (f part))
      → Keeps before held (reading (read_slice d.buf first last) >>= f)
  slice-Keeps d rec first last f ordered inside k r h =
      Leaves-after (λ part r'. IsPart d.buf first last part × Holds before held r') _ _
        (reading (read_slice d.buf first last) r) f
        (Leaves-reading (IsPart d.buf first last) _ _ (read_slice d.buf first last) r
          (Gives-read_slice d.buf first last ordered (omega (arith, rec.size))) h
          (λ part p. (p, h)))
        (λ part r' (p, h'). k part p r' h')
