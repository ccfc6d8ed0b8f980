-- ===== src/Budget/Flows.antt =====
-- src/account_budget.rs, `Flow` and `Flow::parse`.
use swifttunnel_relay.Prelude.{
  ℕ, ◌+◌, ◌*◌, ◌/◌, ◌%◌, ◌≡◌, ◌≢◌, ◌≤◌, ◌↔◌, Bool, true, not, ◌&&◌, ◌||◌, arith, Bytes, bytes_beq,
  bytes_beq_iff, Keyed, eqb, ltb, length,
}
use swifttunnel_relay.Addr.{Ipv4Addr, ipv4_beq, ipv4_beq_iff}
use swifttunnel_relay.Packet.Reader.{
  Parse, got, panicked, ◌>>=◌, ◌>>◌, reject_if, read, read_u16, read_ip, Gives, Gives-bind,
  Gives-reject_if, Gives-ne-panicked, Gives-read, Gives-read_u16, Gives-read_ip, U16At, AddressAt,
}

pub record Flow : Type 0 where
  pub sid : Bytes
  pub proto : ℕ
  pub src : Ipv4Addr
  pub dst : Ipv4Addr
  pub sport : ℕ
  pub dport : ℕ

unfoldable pub flow_beq : Flow → Flow → Bool
flow_beq a b =
    bytes_beq a.sid b.sid
    && (eqb a.proto b.proto
        && (ipv4_beq a.src b.src
            && (ipv4_beq a.dst b.dst && (eqb a.sport b.sport && eqb a.dport b.dport))))

pub flow_beq_iff : (a b : Flow) → (flow_beq a b ≡ true) ↔ (a ≡ b)
unfolding flow_beq
flow_beq_iff a b =
    ground (arith, bytes_beq_iff a.sid b.sid, ipv4_beq_iff a.src b.src, ipv4_beq_iff a.dst b.dst)

instance abbrev pub flow_eq : Keyed Flow
flow_eq = record { matches = flow_beq; matches_iff = flow_beq_iff }

-- the fields, once the header is known to be there
unfoldable pub ports_of : Bytes → Bytes → ℕ → ℕ → Parse Flow
ports_of sid p proto offset = do
  src ← read_ip p 12
  dst ← read_ip p 16
  sport ← read_u16 p offset
  dport ← read_u16 p (offset + 2)
  got (record { sid = sid; proto = proto; src = src; dst = dst; sport = sport; dport = dport })

unfoldable pub parse : Bytes → Bytes → Parse Flow
parse sid p = do
  reject_if (ltb (length p) 20)
  first ← read p 0
  reject_if (not (eqb (first / 16) 4))
  proto ← read p 9
  reject_if (not (eqb proto 6 || eqb proto 17))
  bits ← read_u16 p 6
  reject_if (not (eqb (bits % 0x2000) 0))
  let offset = first % 16 * 4
  reject_if (ltb offset 20 || ltb (length p) (offset + 4))
  ports_of sid p proto offset

parse_lem : (sid p : Bytes) → Gives (λ _. Unit) (parse sid p)
unfolding parse ports_of
parse_lem sid p = Gives-reject_if P (ltb (length p) 20) _ λ room.
    Gives-bind P _ (read p 0) _ (Gives-read p 0 (ground (arith, room))) λ first _.
      Gives-reject_if P (not (eqb (first / 16) 4)) _ λ _.
        Gives-bind P _ (read p 9) _ (Gives-read p 9 (ground (arith, room))) λ proto _.
          Gives-reject_if P (not (eqb proto 6 || eqb proto 17)) _ λ _.
            Gives-bind P _ (read_u16 p 6) _ (Gives-read_u16 p 6 (ground (arith, room))) λ bits _.
              Gives-reject_if P (not (eqb (bits % 0x2000) 0)) _ λ _.
                Gives-reject_if P (ltb (first % 16 * 4) 20 || ltb (length p) (first % 16 * 4 + 4)) _
                  λ fits. ports first (ground (arith, fits)) proto (ground (arith, room))
  where
    P : Flow → Type 0
    P _ = Unit

    ports :
        (first : ℕ)
        → first % 16 * 4 + 4 ≤ length p
        → (proto : ℕ) → 20 ≤ length p
        → Gives P (ports_of sid p proto (first % 16 * 4))
    ports first fits proto room =
        Gives-bind P (AddressAt p 12) (read_ip p 12) _ (Gives-read_ip p 12 (omega arith)) λ src _.
          Gives-bind P (AddressAt p 16) (read_ip p 16) _ (Gives-read_ip p 16 (omega arith)) λ dst _.
            Gives-bind P (U16At p (first % 16 * 4)) (read_u16 p (first % 16 * 4)) _
              (Gives-read_u16 p (first % 16 * 4) (omega arith))
              λ sport _.
                Gives-bind P (U16At p (first % 16 * 4 + 2)) (read_u16 p (first % 16 * 4 + 2)) _
                  (Gives-read_u16 p (first % 16 * 4 + 2) (omega arith)) λ dport _. tt

-- No packet makes the flow key read outside the packet.
pub flow_parse-ne-panicked : (sid p : Bytes) → parse sid p ≢ panicked
flow_parse-ne-panicked sid p = Gives-ne-panicked (λ _. Unit) (parse sid p) (parse_lem sid p)
