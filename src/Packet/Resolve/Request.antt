-- ===== src/Packet/Resolve/Request.antt =====
-- What a resolve request can ask for (src/main.rs, `parse_resolve_request`).
use swifttunnel_relay.Prelude.{
  ℕ, zero, suc, ◌+◌, ◌<◌, ◌≤◌, ◌≡◌, refl, ◌||◌, not, arith, Bool, true, false, List, ◌∷◌, All,
  length, Bytes, if◌then◌else◌, ltb, leb, eqb,
}
use swifttunnel_relay.Auth.Frame.{is_utf8}
use swifttunnel_relay.Packet.Reader.{
  Gives, Gives-bind, Gives-reject_if, Gives-read, Gives-read_u16, Gives-read_slice, IsPart, read,
  read_slice, read_u16,
}
use swifttunnel_relay.Packet.Resolve.{
  resolve_max_hosts_per_request, resolve_max_hostname_len, header, is_resolvable_roblox_host,
  read_hosts, parse_resolve_request,
}

-- A host that the relay looks up: one of Roblox's, in UTF-8, with a name that is not empty or long.
pub record IsAskable (host : Bytes) : Type 0 where
  pub resolvable : is_resolvable_roblox_host host ≡ true
  pub valid : is_utf8 host ≡ true
  pub not_empty : 0 < length host
  pub short : length host ≤ resolve_max_hostname_len

abbrev pub AreAskable : ℕ → List Bytes → Type 0
AreAskable most hosts = All IsAskable hosts × (length hosts ≤ most)

keep_host :
    (most : ℕ) (host : Bytes) (rest : List Bytes) (ours : Bool)
    → is_resolvable_roblox_host host ≡ ours
    → is_utf8 host ≡ true
    → 0 < length host
    → length host ≤ resolve_max_hostname_len
    → AreAskable most rest
    → AreAskable (suc most) (if ours then host ∷ rest else rest)
keep_host most host rest true e u n s (all_rest, fewer) = (
  (record { resolvable = e; valid = u; not_empty = n; short = s }, all_rest),
  omega (arith, fewer),
)
keep_host most host rest false e u n s (all_rest, fewer) = (all_rest, omega (arith, fewer))

read_hosts_lem :
    (more : ℕ) (frame : Bytes) (len off : ℕ)
    → len ≤ length frame
    → Gives (AreAskable more) (read_hosts more frame len off)
unfolding read_hosts
read_hosts_lem zero frame len off inside = (tt, omega arith)
read_hosts_lem (suc more) frame len off inside = Gives-reject_if P (leb len off) _ λ before_end.
    Gives-bind P _ (read frame off) _ (Gives-read frame off (ground (arith, before_end))) λ hlen _.
      Gives-reject_if P
        (eqb hlen 0 || (ltb resolve_max_hostname_len hlen || ltb len (off + 1 + hlen))) _
        λ fits.
          Gives-bind P (IsPart frame (off + 1) (off + 1 + hlen))
            (read_slice frame (off + 1) (off + 1 + hlen)) _
            (Gives-read_slice frame (off + 1) (off + 1 + hlen) (omega arith)
              (ground (arith, fits, inside)))
            λ host part. Gives-reject_if P (not (is_utf8 host)) _ λ utf8.
              Gives-bind P (AreAskable more) (read_hosts more frame len (off + 1 + hlen)) _
                (read_hosts_lem more frame len (off + 1 + hlen) inside)
                λ rest ok.
                  keep_host more host rest (is_resolvable_roblox_host host) refl
                    (ground (arith, utf8)) (ground (arith, fits, part.size))
                    (ground (arith, fits, part.size)) ok
  where
    P : List Bytes → Type 0
    P = AreAskable (suc more)

-- What a request asks for.
abbrev pub IsRequest : ℕ × List Bytes → Type 0
IsRequest (request_id, hosts) = AreAskable resolve_max_hosts_per_request hosts

-- Whatever a datagram that fits the buffer holds, a resolve request is read without a panic, and when
-- it is accepted it asks for at most 16 hosts, each one of Roblox's names, in UTF-8, of 1 to 64 bytes.
pub parse_resolve_request-IsRequest :
    (frame : Bytes) (len : ℕ)
    → len ≤ length frame
    → Gives IsRequest (parse_resolve_request frame len)
unfolding parse_resolve_request
parse_resolve_request-IsRequest frame len inside =
    Gives-reject_if IsRequest (ltb len (header + 3)) _ λ long.
      Gives-bind IsRequest _ (read_u16 frame header) _
        (Gives-read_u16 frame header (ground (arith, long, inside)))
        λ request_id _.
          Gives-bind IsRequest _ (read frame (header + 2)) _
            (Gives-read frame (header + 2) (ground (arith, long, inside)))
            λ host_count _.
              Gives-reject_if IsRequest (ltb resolve_max_hosts_per_request host_count) _ λ few.
                Gives-bind IsRequest (AreAskable host_count)
                  (read_hosts host_count frame len (header + 3)) _
                  (read_hosts_lem host_count frame len (header + 3) inside)
                  λ hosts (askable, fewer). (askable, ground (arith, few, fewer))
