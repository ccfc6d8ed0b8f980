-- ===== src/Packet/Parse/Header.antt =====
-- What `parse_ip_packet_full` (src/main.rs) knows once it has read the IP header.
use swifttunnel_relay.Prelude.{
  ℕ, ◌*◌, ◌/◌, ◌%◌, ◌≡◌, ◌≤◌, refl, not, ◌||◌, arith, Bytes, length, ltb, eqb, get_elem?, some,
}
use swifttunnel_relay.Packet.Reader.{
  read, read_slice, read_u16, read_ip, Gives, Gives-bind, Gives-reject_if, Gives-read,
  Gives-read_u16, Gives-read_ip, Gives-read_slice, AddressAt, U16At, IsPart, Gives-weaken,
}
use swifttunnel_relay.Packet.Parse.{IpHeader, read_fields, read_header, ip_header_min}

-- The header's fields stand in the packet that it carries, which holds the whole header.
pub record IsHeader (h : IpHeader) : Type 0 where
  pub room : 20 ≤ h.ihl
  pub fits : h.ihl ≤ length h.packet
  pub protocol_at : get_elem? h.packet 9 ≡ some h.protocol
  pub src_at : AddressAt h.packet 12 h.src_ip
  pub dst_at : AddressAt h.packet 16 h.dst_ip
  pub fragment_bits_at : U16At h.packet 6 h.fragment_bits

-- The header was read from this packet, which is of IP version 4 and tells the header's length: what it
-- carries is the packet's first part.
pub record IsHeaderOf (packet : Bytes) (h : IpHeader) : Type 0 where
  pub header : IsHeader h
  pub first : ℕ
  pub first_at : get_elem? packet 0 ≡ some first
  pub version : first / 16 % 16 ≡ 4
  pub ihl_is : h.ihl ≡ first % 16 * 4
  pub total_len : ℕ
  pub total_len_at : U16At packet 2 total_len
  pub cut : IsPart packet 0 total_len h.packet

read_fields_lem :
    (packet : Bytes) (ihl : ℕ)
    → 20 ≤ ihl
    → ihl ≤ length packet
    → Gives (λ h. IsHeader h × (h.packet ≡ packet) × (h.ihl ≡ ihl)) (read_fields packet ihl)
unfolding read_fields
read_fields_lem packet ihl room fits =
    Gives-bind P _ (read packet 9) _ (Gives-read packet 9 (omega arith)) λ protocol ep.
      Gives-bind P (AddressAt packet 12) (read_ip packet 12) _
        (Gives-read_ip packet 12 (omega arith))
        λ src es.
          Gives-bind P (AddressAt packet 16) (read_ip packet 16) _
            (Gives-read_ip packet 16 (omega arith))
            λ dst ed.
              Gives-bind P _ (read_u16 packet 6) _ (Gives-read_u16 packet 6 (omega arith))
                λ bits eb. (
                  record {
                    room = room;
                    fits = fits;
                    protocol_at = ep;
                    src_at = es;
                    dst_at = ed;
                    fragment_bits_at = eb;
                  },
                  refl,
                  refl,
                )
  where
    P : IpHeader → Type 0
    P h = IsHeader h × (h.packet ≡ packet) × (h.ihl ≡ ihl)

pub read_header_lem : (packet : Bytes) → Gives (IsHeaderOf packet) (read_header packet)
unfolding read_header
read_header_lem packet = Gives-reject_if P (ltb (length packet) ip_header_min) _ λ long.
    Gives-bind P _ (read packet 0) _ (Gives-read packet 0 (ground (arith, long))) λ first ef.
      Gives-reject_if P (not (eqb (first / 16 % 16) 4)) _ λ v4.
        Gives-reject_if P
          (ltb (first % 16 * 4) ip_header_min || ltb (length packet) (first % 16 * 4)) _
          λ ihl.
            Gives-bind P _ (read_u16 packet 2) _ (Gives-read_u16 packet 2 (ground (arith, long)))
              λ total et.
                Gives-reject_if P (ltb total (first % 16 * 4) || ltb (length packet) total) _
                  λ fits.
                    Gives-bind P _ (read_slice packet 0 total) _
                      (Gives-read_slice packet 0 total (omega arith) (ground (arith, fits)))
                      λ cut part.
                        Gives-weaken P _ (read_fields cut (first % 16 * 4))
                          (read_fields_lem cut (first % 16 * 4) (ground (arith, ihl))
                            (ground (arith, fits, part.size)))
                          λ h (is, e, el). record {
                            header = is;
                            first = first;
                            first_at = ef;
                            version = ground (arith, v4);
                            ihl_is = el;
                            total_len = total;
                            total_len_at = et;
                            cut = rw e part;
                          }
  where
    P : IpHeader → Type 0
    P = IsHeaderOf packet
