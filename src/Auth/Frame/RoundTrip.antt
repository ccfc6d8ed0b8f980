-- ===== src/Auth/Frame/RoundTrip.antt =====
-- The hello frame, built and parsed (src/main.rs, `parse_auth_hello_token`).
use swifttunnel_relay.Prelude.{
  ℕ, ◌+◌, ◌/◌, ◌%◌, ◌≤◌, ◌<◌, ◌≡◌, ◌≢◌, ap, sym, ◌∙◌, inl, inr, true, [], ◌∷◌, ◌++◌, none, some,
  arith, get_elem?, length, length-append, get_elem?-of_lt, get_elem?-append_right, slice_middle,
  slice-some, le_or_lt, Bytes, slice, be16,
}
use mathlib.Core.List.{append_assoc}
use swifttunnel_relay.Auth.Mode.{ok}
use swifttunnel_relay.Auth.Frame.{
  session_id_len, max_auth_token_len, is_utf8, read_token, parse_auth_hello_token,
}

-- the receive buffer that the client's frame has come into
abbrev pub hello_buffer : Bytes → Bytes → Bytes → Bytes
hello_buffer session_id token junk =
    session_id ++ (0xa1 ∷ (length token / 256) ∷ (length token % 256) ∷ (token ++ junk))

read_token-ne-none :
    (frame : Bytes) (len token_len : ℕ) → len ≤ length frame → read_token frame len token_len ≢ none
unfolding read_token
read_token-ne-none frame len token_len fits = ground (arith, slice-some frame 11 (11 + token_len))

-- A datagram in the buffer is read without a panic, whatever it holds.
pub parse_auth_hello_token-ne-none :
    (frame : Bytes) (len : ℕ) → len ≤ length frame → parse_auth_hello_token frame len ≢ none
unfolding parse_auth_hello_token
parse_auth_hello_token-ne-none frame len fits = elim (le_or_lt 11 len) [
  | inl long ↦
      let (hi, at9) = get_elem?-of_lt frame 9 (omega arith) in
      let (lo, at10) = get_elem?-of_lt frame 10 (omega arith) in
      let total = read_token-ne-none frame len (be16 hi lo) fits in
      rw (at9, at10) (ground (arith, total))
  | inr short ↦ ground arith
]

-- Whatever stands in the buffer behind the datagram, a frame made from a session id and a token gives
-- the token back.
pub parse-hello_buffer :
    (session_id token junk : Bytes)
    → length session_id ≡ session_id_len
    → 0 < length token
    → length token ≤ max_auth_token_len
    → is_utf8 token ≡ true
    → parse_auth_hello_token
        (hello_buffer session_id token junk)
        (session_id_len + 3 + length token)
      ≡ some (ok token)
unfolding parse_auth_hello_token read_token
parse-hello_buffer session_id token junk l some_token fits utf8 =
    let tail = 0xa1 ∷ (length token / 256) ∷ (length token % 256) ∷ (token ++ junk) in
    let frame = hello_buffer session_id token junk in
    let nine : length session_id + 1 ≡ 9 = omega arith in
    let ten : length session_id + 2 ≡ 10 = omega arith in
    let at9 = ap (get_elem? frame) (sym nine) ∙ get_elem?-append_right session_id tail 1 in
    let at10 = ap (get_elem? frame) (sym ten) ∙ get_elem?-append_right session_id tail 2 in
    let size : be16 (length token / 256) (length token % 256) ≡ length token = omega arith in
    let head = session_id ++ (0xa1 ∷ (length token / 256) ∷ (length token % 256) ∷ []) in
    let middle =
      slice_middle head token junk 11 (11 + length token)
        (omega (
          arith,
          length-append session_id (0xa1 ∷ (length token / 256) ∷ (length token % 256) ∷ []),
        ))
        (omega (
          arith,
          length-append session_id (0xa1 ∷ (length token / 256) ∷ (length token % 256) ∷ []),
        )) in
    let at11 =
      ap (λ (b : Bytes). slice b 11 (11 + length token))
        (sym (
          append_assoc session_id (0xa1 ∷ (length token / 256) ∷ (length token % 256) ∷ [])
            (token ++ junk)))
      ∙ middle in
    rw (at9, at10, size, at11, utf8) (ground arith)
