-- ===== src/Auth/Frame.antt =====
-- src/main.rs, `parse_auth_hello_token`: [session_id:8][0xA1][token_len:2][token]. The frame is the
-- receive buffer and `len` the length of the datagram in it; `none` is a panic.
pub mod RoundTrip
use swifttunnel_relay.Prelude.{
  ℕ, zero, suc, ◌+◌, Bool, true, false, ◌&&◌, ◌||◌, not, [], ◌∷◌, Option, none, some, get_elem?,
  if◌then◌else◌, ltb, leb, eqb, Bytes, be16, slice,
}
use swifttunnel_relay.Prelude.Slices.{◌>>=◌}
use swifttunnel_relay.Auth.Mode.{Verified, ok, err, bad_format}

abbrev pub session_id_len : ℕ
session_id_len = 8

abbrev pub max_auth_token_len : ℕ
max_auth_token_len = 4096

-- A lead byte of UTF-8: how many bytes follow, and the range of the first of them.
unfoldable pub utf8_lead : ℕ → Option (ℕ × ℕ × ℕ)
utf8_lead b =
    if ltb b 0x80
    then some (0, 0, 0)
    else if ltb b 0xc2
    then none
    else if ltb b 0xe0
    then some (1, 0x80, 0xbf)
    else if eqb b 0xe0
    then some (2, 0xa0, 0xbf)
    else if eqb b 0xed
    then some (2, 0x80, 0x9f)
    else if ltb b 0xf0
    then some (2, 0x80, 0xbf)
    else if eqb b 0xf0
    then some (3, 0x90, 0xbf)
    else if ltb b 0xf4
    then some (3, 0x80, 0xbf)
    else if eqb b 0xf4
    then some (3, 0x80, 0x8f)
    else none

-- UTF-8, where `more` bytes of a character are still due and the next is in the range given.
unfoldable pub utf8_from : ℕ → ℕ → ℕ → Bytes → Bool
utf8_from zero lo hi [] = true
utf8_from (suc more) lo hi [] = false
utf8_from zero lo hi (b ∷ bs) = elim (utf8_lead b) [
  | none ↦ false
  | some (more, lo', hi') ↦ utf8_from more lo' hi' bs
]
utf8_from (suc more) lo hi (b ∷ bs) =
    let rest = utf8_from more 0x80 0xbf bs in (leb lo b && leb b hi) && rest

-- `std::str::from_utf8(bytes).is_ok()`
unfoldable pub is_utf8 : Bytes → Bool
is_utf8 bs = utf8_from 0 0 0 bs

abbrev pub bad {ℓ} : {A : Type ℓ} → Option (Verified A)
bad = some (err bad_format)

-- the tests on the length that the frame states, and the token
unfoldable pub read_token : Bytes → ℕ → ℕ → Option (Verified Bytes)
read_token frame len token_len =
    let payload_start = session_id_len + 3 in
    let payload_end = payload_start + token_len in
    if eqb token_len 0
      || (ltb max_auth_token_len token_len || (ltb len payload_end || not (eqb payload_end len)))
    then bad
    else (do
      token ← slice frame payload_start payload_end
      if is_utf8 token then some (ok token) else bad)

unfoldable pub parse_auth_hello_token : Bytes → ℕ → Option (Verified Bytes)
parse_auth_hello_token frame len = if ltb len (session_id_len + 3) then bad else do
  hi ← get_elem? frame (session_id_len + 1)
  lo ← get_elem? frame (session_id_len + 2)
  read_token frame len (be16 hi lo)
