-- ===== src/Packet/Resolve.antt =====
-- src/main.rs: the DNS resolve frames, `is_resolvable_roblox_host`, `parse_resolve_request` and
-- `build_resolve_response`.
pub mod Request
pub mod Reply
use swifttunnel_relay.Prelude.{
  ℕ, zero, suc, ◌+◌, ◌/◌, ◌%◌, Bool, true, false, not, ◌&&◌, ◌||◌, List, [], ◌∷◌, ◌++◌, map, min,
  ◌-◌, if◌then◌else◌, ltb, leb, eqb, ◌==◌, length, take, drop, Bytes, bytes_eq, text,
}
use swifttunnel_relay.Addr.{Ipv4Addr, octets}
use swifttunnel_relay.Auth.Frame.{is_utf8}
use swifttunnel_relay.Packet.Reader.{Parse, got, ◌>>=◌, ◌>>◌, reject_if, read, read_u16, read_slice}

abbrev pub resolve_max_hosts_per_request : ℕ
resolve_max_hosts_per_request = 16

abbrev pub resolve_max_hostname_len : ℕ
resolve_max_hostname_len = 64

abbrev pub resolve_max_ips_per_host : ℕ
resolve_max_ips_per_host = 4

abbrev pub resolve_response_frame_type : ℕ
resolve_response_frame_type = 0xA7

-- SESSION_ID_LEN + 1
abbrev pub header : ℕ
header = 9

-- `str::trim_end_matches` with one character
unfoldable pub trim_end_matches : ℕ → Bytes → Bytes
trim_end_matches c [] = []
trim_end_matches c (b ∷ bs) =
    let rest = trim_end_matches c bs in if eqb (length rest) 0 && eqb b c then [] else b ∷ rest

-- `u8::to_ascii_lowercase`
abbrev pub lower : ℕ → ℕ
lower b = if leb b'A' b && leb b b'Z' then b + 32 else b

-- `str::ends_with`
unfoldable pub ends_with : Bytes → Bytes → Bool
ends_with h suffix = leb (length suffix) (length h) && drop (length h - length suffix) h == suffix

unfoldable pub is_resolvable_roblox_host : Bytes → Bool
is_resolvable_roblox_host host =
    let h = map lower (trim_end_matches b'.' host) in
    h == text "roblox.com"
    || (ends_with h (text ".roblox.com")
        || (ends_with h (text ".rbxcdn.com") || ends_with h (text ".arkoselabs.com")))

-- the loop on the hosts that are still to be read, from an offset on
unfoldable pub read_hosts : ℕ → Bytes → ℕ → ℕ → Parse (List Bytes)
read_hosts zero frame len off = got []
read_hosts (suc more) frame len off = do
  reject_if (leb len off)
  hlen ← read frame off
  let off = off + 1
  reject_if (eqb hlen 0 || (ltb resolve_max_hostname_len hlen || ltb len (off + hlen)))
  host ← read_slice frame off (off + hlen)
  reject_if (not (is_utf8 host))
  rest ← read_hosts more frame len (off + hlen)
  got (if is_resolvable_roblox_host host then host ∷ rest else rest)

unfoldable pub parse_resolve_request : Bytes → ℕ → Parse (ℕ × List Bytes)
parse_resolve_request frame len = do
  reject_if (ltb len (header + 3))
  request_id ← read_u16 frame header
  host_count ← read frame (header + 2)
  reject_if (ltb resolve_max_hosts_per_request host_count)
  hosts ← read_hosts host_count frame len (header + 3)
  got (request_id, hosts)

-- the addresses of one answer
unfoldable pub put_ips : List Ipv4Addr → Bytes
put_ips [] = []
put_ips (ip ∷ ips) = octets ip ++ put_ips ips

-- one answer: the host's name and its addresses, each behind its count
unfoldable pub put_answer : Bytes × List Ipv4Addr → Bytes
put_answer (host, ips) =
    let hlen = min (length host) resolve_max_hostname_len in
    let ip_count = min (length ips) resolve_max_ips_per_host in
    (hlen ∷ take hlen host) ++ (ip_count ∷ put_ips (take ip_count ips))

unfoldable pub put_answers : List (Bytes × List Ipv4Addr) → Bytes
put_answers [] = []
put_answers (answer ∷ answers) = put_answer answer ++ put_answers answers

unfoldable pub build_resolve_response : Bytes → ℕ → List (Bytes × List Ipv4Addr) → Bytes
build_resolve_response session_id request_id answers =
    let answer_count = min (length answers) 255 in
    session_id
    ++ (resolve_response_frame_type
        ∷ request_id / 256
        ∷ request_id % 256
        ∷ answer_count
        ∷ put_answers (take answer_count answers))
