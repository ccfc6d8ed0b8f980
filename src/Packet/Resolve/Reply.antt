-- ===== src/Packet/Resolve/Reply.antt =====
-- How long a resolve response is (src/main.rs, `build_resolve_response`).
use swifttunnel_relay.Prelude.{
  ℕ, ◌*◌, ◌≤◌, ◌≡◌, arith, List, [], ◌∷◌, length, take, min, Bytes, length-append, length-take, ◌/◌,
  ◌%◌,
}
use swifttunnel_relay.Addr.{Ipv4Addr}
use swifttunnel_relay.Packet.Resolve.{
  resolve_max_hostname_len, resolve_max_ips_per_host, resolve_response_frame_type, put_ips,
  put_answer, put_answers, build_resolve_response,
}

length-put_ips : (ips : List Ipv4Addr) → length (put_ips ips) ≡ 4 * length ips
unfolding put_ips
length-put_ips [] = omega arith
length-put_ips (ip ∷ ips) = omega (arith, length-put_ips ips)

length-put_answer-le : (answer : Bytes × List Ipv4Addr) → length (put_answer answer) ≤ 82
unfolding put_answer
length-put_answer-le (host, ips) =
    let hlen = min (length host) resolve_max_hostname_len in
    let count = min (length ips) resolve_max_ips_per_host in
    omega (
      arith,
      length-append (hlen ∷ take hlen host) (count ∷ put_ips (take count ips)),
      length-take hlen host,
      length-put_ips (take count ips),
      length-take count ips,
    )

length-put_answers-le :
    (answers : List (Bytes × List Ipv4Addr)) → length (put_answers answers) ≤ 82 * length answers
unfolding put_answers
length-put_answers-le [] = omega arith
length-put_answers-le (answer ∷ answers) = omega (
  arith,
  length-append (put_answer answer) (put_answers answers),
  length-put_answer-le answer,
  length-put_answers-le answers,
)

-- A response, whatever was found, is at least the 12 bytes of its header and at most 20,922 bytes long,
-- so that one UDP datagram holds it.
pub length-build_resolve_response :
    (session_id : Bytes) (request_id : ℕ) (answers : List (Bytes × List Ipv4Addr))
    → length session_id ≡ 8
    → (12 ≤ length (build_resolve_response session_id request_id answers))
      × (length (build_resolve_response session_id request_id answers) ≤ 20_922)
unfolding build_resolve_response
length-build_resolve_response session_id request_id answers h =
    let count = min (length answers) 255 in
    let whole = length-append session_id (
      resolve_response_frame_type
      ∷ request_id / 256
      ∷ request_id % 256
      ∷ count
      ∷ put_answers (take count answers)) in
    let body = length-put_answers-le (take count answers) in
    (omega (arith, whole), omega (arith, whole, body, length-take count answers))
