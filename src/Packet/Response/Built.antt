-- ===== src/Packet/Response/Built.antt =====
-- The packet that the two builders make (src/main.rs and src/datapath_v2.rs).
use swifttunnel_relay.Prelude.{
  ℕ, ◌+◌, ◌≡◌, ◌∙◌, le_or_lt, inl, inr, ap, sym, refl, [], ◌∷◌, ◌++◌, none, some, arith, All,
  IsByte, Bytes, length, take, drop, replicate, take-drop, take-append, length-take, length-drop,
  length-replicate, ltb, if◌then◌else◌,
}
use swifttunnel_relay.Addr.{Ipv4Addr, octets}
use swifttunnel_relay.Packet.Parse.{OriginalPacketInfo}
use swifttunnel_relay.Packet.Checksum.{calculate_ip_checksum}
use swifttunnel_relay.Packet.Checksum.Fold.{checksum_cancels, checksum_u16}
use swifttunnel_relay.Packet.Response.{
  write_all, ip_header, udp_header, fill, build_response_ip_packet_with_tos,
  write_response_ip_packet_into_with_tos, high_byte, low_byte,
}
use swifttunnel_relay.Packet.Response.Layout.{write_all-middle, write_all-end}

-- The IP header with its checksum.
unfoldable pub sealed_header : OriginalPacketInfo → ℕ → ℕ → Bytes
sealed_header original tos total_len =
    let c = calculate_ip_checksum (ip_header original tos total_len) in
    0x45
      ∷ tos
      ∷ high_byte total_len
      ∷ low_byte total_len
      ∷ 0
      ∷ 0
      ∷ 0x40
      ∷ 0
      ∷ 64
      ∷ 17
      ∷ high_byte c
      ∷ low_byte c
      ∷ octets original.dst_ip
    ++ octets original.src_ip

-- The whole packet: IP header, UDP header, payload.
unfoldable pub response_packet : Bytes → OriginalPacketInfo → ℕ → Bytes
response_packet udp_payload original tos =
    sealed_header original tos (28 + length udp_payload)
    ++ (udp_header original (8 + length udp_payload) ++ udp_payload)

pub fill_lem :
    (packet udp_payload : Bytes) (original : OriginalPacketInfo) (tos : ℕ)
    → length packet ≡ 28 + length udp_payload
    → fill packet udp_payload original tos ≡ response_packet udp_payload original tos
unfolding fill response_packet sealed_header ip_header udp_header
fill_lem packet payload original tos h = rw (total, e1, e2, e3, e4) e5
  where
    total : 20 + (8 + length payload) ≡ 28 + length payload
    total = omega arith

    len : ℕ
    len = 28 + length payload

    ip : Bytes
    ip = ip_header original tos len

    c : ℕ
    c = calculate_ip_checksum ip

    b : Bytes
    b = drop 20 packet

    sealed : Bytes
    sealed = sealed_header original tos len

    udp : Bytes
    udp = udp_header original (8 + length payload)

    e1 : write_all 0 ip packet ≡ ip ++ b
    e1 =
        ap (write_all 0 ip) (sym (take-drop 20 packet))
        ∙ write_all-middle [] ip (take 20 packet) b 0 refl (omega (arith, length-take 20 packet))

    e2 : take 20 (ip ++ b) ≡ ip
    e2 = take-append ip b

    e3 : write_all 10 (high_byte c ∷ low_byte c ∷ []) (ip ++ b) ≡ sealed ++ b
    e3 =
        write_all-middle (take 10 ip) (high_byte c ∷ low_byte c ∷ []) (0 ∷ 0 ∷ []) (drop 12 ip ++ b)
          10 refl refl

    e4 : write_all 20 udp (sealed ++ b) ≡ sealed ++ (udp ++ drop 8 b)
    e4 =
        ap (λ r. write_all 20 udp (sealed ++ r)) (sym (take-drop 8 b))
        ∙ write_all-middle sealed udp (take 8 b) (drop 8 b) 20 refl
            (omega (arith, length-take 8 b, length-drop 20 packet))

    e5 : write_all 28 payload (sealed ++ (udp ++ drop 8 b)) ≡ sealed ++ (udp ++ payload)
    e5 =
        write_all-end (sealed ++ udp) payload (drop 8 b) 28 refl
          (omega (arith, length-drop 8 b, length-drop 20 packet))

-- Writing into a pooled buffer leaves, before what the buffer held past the packet, exactly the
-- packet that is built from scratch, whatever the buffer held; a buffer that is too short is refused.
pub write-build :
    (dst udp_payload : Bytes) (original : OriginalPacketInfo) (tos : ℕ)
    → write_response_ip_packet_into_with_tos dst udp_payload original tos ≡ (
        if ltb (length dst) (28 + length udp_payload)
        then none
        else some (
          build_response_ip_packet_with_tos udp_payload original tos
              ++ drop (28 + length udp_payload) dst,
          28 + length udp_payload,
        ))
unfolding write_response_ip_packet_into_with_tos build_response_ip_packet_with_tos
write-build dst payload original tos = elim (le_or_lt (28 + length payload) (length dst)) [
  | inl fits ↦
      let n : length (take (28 + length payload) dst) ≡ 28 + length payload =
        omega (arith, length-take (28 + length payload) dst) in
      let z : length (replicate {A = ℕ} (28 + length payload) 0) ≡ 28 + length payload =
        length-replicate {A = ℕ} (28 + length payload) 0 in
      let written = fill_lem (take (28 + length payload) dst) payload original tos n in
      let built = fill_lem (replicate (28 + length payload) 0) payload original tos z in
      ground (arith, written, built)
  | inr short ↦ ground arith
]

pub build_lem :
    (udp_payload : Bytes) (original : OriginalPacketInfo) (tos : ℕ)
    → build_response_ip_packet_with_tos udp_payload original tos
      ≡ response_packet udp_payload original tos
unfolding build_response_ip_packet_with_tos
build_lem payload original tos =
    fill_lem (replicate (20 + (8 + length payload)) 0) payload original tos
      (omega (arith, length-replicate {A = ℕ} (20 + (8 + length payload)) 0))

abbrev pub IsAddress : Ipv4Addr → Type 0
IsAddress ip = All IsByte (octets ip)

sealed_header_checks :
    (original : OriginalPacketInfo) (tos total_len : ℕ)
    → IsByte tos
    → IsAddress original.dst_ip
    → IsAddress original.src_ip
    → calculate_ip_checksum (sealed_header original tos total_len) ≡ 0
unfolding sealed_header ip_header
sealed_header_checks original tos total_len bt bd bs =
    let ip = ip_header original tos total_len in
    let c = calculate_ip_checksum ip in
    let u = checksum_u16 ip in
    let (a, (b, (d, (e, _)))) = bd in
    let (f, (g, (h, (k, _)))) = bs in
    checksum_cancels ip (sealed_header original tos total_len)
      (
        omega arith,
        (
          bt,
          (
            high total_len,
            (
              low total_len,
              (
                omega arith,
                (
                  omega arith,
                  (
                    omega arith,
                    (
                      omega arith,
                      (
                        omega arith,
                        (
                          omega arith,
                          (omega arith, (omega arith, (a, (b, (d, (e, (f, (g, (h, (k, tt)))))))))),
                        ),
                      ),
                    ),
                  ),
                ),
              ),
            ),
          ),
        ),
      )
      (
        omega arith,
        (
          bt,
          (
            high total_len,
            (
              low total_len,
              (
                omega arith,
                (
                  omega arith,
                  (
                    omega arith,
                    (
                      omega arith,
                      (
                        omega arith,
                        (
                          omega arith,
                          (high c, (low c, (a, (b, (d, (e, (f, (g, (h, (k, tt)))))))))),
                        ),
                      ),
                    ),
                  ),
                ),
              ),
            ),
          ),
        ),
      )
      (omega arith) (omega arith) (omega (arith, u))
  where
    high : (n : ℕ) → IsByte (high_byte n)
    high n = omega arith

    low : (n : ℕ) → IsByte (low_byte n)
    low n = omega arith

-- The IP header of a response passes the receiver's check: its words, the checksum among them, have
-- the checksum 0.
pub checksum-build :
    (udp_payload : Bytes) (original : OriginalPacketInfo) (tos : ℕ)
    → IsByte tos
    → IsAddress original.dst_ip
    → IsAddress original.src_ip
    → calculate_ip_checksum (take 20 (build_response_ip_packet_with_tos udp_payload original tos))
      ≡ 0
unfolding response_packet sealed_header
checksum-build payload original tos bt bd bs =
    rw (build_lem payload original tos, take_header)
      (sealed_header_checks original tos len bt bd bs)
  where
    len : ℕ
    len = 28 + length payload

    take_header :
        take 20
          (sealed_header original tos len ++ (udp_header original (8 + length payload) ++ payload))
        ≡ sealed_header original tos len
    take_header =
        take-append (sealed_header original tos len)
          (udp_header original (8 + length payload) ++ payload)
