-- ===== src/Examples/Tickets.antt =====
-- Concrete tickets and hello frames (src/main.rs, authentication).
use swifttunnel_relay.Prelude.{
  ◌≡◌, ◌≢◌, ◌↔◌, refl, true, false, List, [], ◌∷◌, ◌++◌, none, some, arith, All, IsByte, Bytes,
  bytes_beq, text, length, replicate, eqb, lookup, insert, retain,
}
use swifttunnel_relay.Auth.Mode.{RelayAuthConfig, required, ok}
use swifttunnel_relay.Auth.Replay.{new, accept_once, prune_expired}
use swifttunnel_relay.Auth.Replay.Once.{Call, after, accept_once_unique}
use swifttunnel_relay.Auth.Ticket.{
  Crates, RelayTicketClaims, split_once, is_ascii_alphanumeric, hex_digit, hex, session_hex,
  malformed, wrong_parties, check_claims, decode_base64_flexible, signed_claims,
  verify_relay_ticket, admit_once, verify_relay_ticket_once,
}
use swifttunnel_relay.Auth.Ticket.Claims.{IsGoodFor, ticket_of}
use swifttunnel_relay.Auth.Ticket.Sound.{IsSigned, verify_relay_ticket_iff}
use swifttunnel_relay.Auth.Ticket.NoReplay.{Attempt, after_attempts, verify_once_unique}
use swifttunnel_relay.Auth.Ticket.Session.{verify_relay_ticket_session}
use swifttunnel_relay.Auth.Frame.{is_utf8, utf8_from, utf8_lead, parse_auth_hello_token}
use swifttunnel_relay.Auth.Frame.RoundTrip.{
  hello_buffer, parse_auth_hello_token-ne-none, parse-hello_buffer,
}

abbrev session : Bytes
session = 0 ∷ 0 ∷ 0 ∷ 0 ∷ 0 ∷ 0 ∷ 1 ∷ 0x2a ∷ []

session_bytes : All IsByte session
session_bytes = (
  zero_byte,
  (zero_byte, (zero_byte, (zero_byte, (zero_byte, (zero_byte, (omega arith, (omega arith, tt))))))),
)
  where
    zero_byte : IsByte 0
    zero_byte = omega arith

abbrev claims : RelayTicketClaims
claims = record {
  v = 1;
  iss = text "swifttunnel-web";
  aud = text "swifttunnel-relay";
  sub = text "user-7";
  sid = text "000000000000012a";
  srv = text "sgp-1";
  iat = 1000;
  exp = 1600;
  jti = text "ticket_1";
  lease = true;
}

-- Decoders that take text as it stands, a signature of 64 bytes that verifies, one payload.
abbrev crates : Crates
crates = record {
  base64_url_safe_no_pad = λ b. none;
  base64_url_safe = λ b. some b;
  base64_standard = λ b. none;
  verify = λ key payload signature. eqb (length signature) 64;
  from_slice = λ payload. some claims;
}

abbrev token : Bytes
token = text "payload." ++ replicate 64 0x61

abbrev auth : RelayAuthConfig
auth = record { mode = required; public_key = some (text "key"); server_id = some (text "sgp-1") }

accepted : verify_relay_ticket crates token session auth 1200 ≡ ok (ticket_of claims)
unfolding verify_relay_ticket signed_claims check_claims split_once decode_base64_flexible malformed
    wrong_parties is_ascii_alphanumeric session_hex hex hex_digit bytes_beq
accepted = refl

first_use : (verify_relay_ticket_once crates token session auth 1200 new).1 ≡ ok (ticket_of claims)
unfolding verify_relay_ticket_once admit_once accept_once new prune_expired insert retain lookup
first_use = rw accepted refl

verify_relay_ticket_iff_example :
    (verify_relay_ticket crates token session auth 1200 ≡ ok (ticket_of claims)) ↔ (
      (c : RelayTicketClaims) × IsSigned crates token auth c
      × IsGoodFor c session auth 1200
      × (ticket_of claims ≡ ticket_of c))
verify_relay_ticket_iff_example =
    verify_relay_ticket_iff crates token session auth 1200 (ticket_of claims)

abbrev attempts : List Attempt
attempts = (token, session, 1210) ∷ (text "junk", session, 1220) ∷ []

verify_once_unique_example :
    (verify_relay_ticket_once crates token session auth 1300 (
      after_attempts crates auth
        (verify_relay_ticket_once crates token session auth 1200 new).0
        attempts)).1
    ≢ ok (ticket_of claims)
unfolding new
verify_once_unique_example =
    verify_once_unique crates token session session auth 1200 1300 new attempts (ticket_of claims)
      (ticket_of claims) tt first_use (omega arith, (omega arith, tt)) (omega arith)

verify_relay_ticket_session_example : session ≡ session
verify_relay_ticket_session_example =
    verify_relay_ticket_session crates token session session auth 1200 1200 (ticket_of claims)
      (ticket_of claims) refl refl session_bytes session_bytes accepted accepted

abbrev calls : List Call
calls = (text "other", 1500, 1100) ∷ (text "more", 1700, 1620) ∷ []

accepted_once : (accept_once new (text "ticket_1") 1600 1000).1 ≡ true
unfolding accept_once new prune_expired insert retain lookup
accepted_once = refl

accept_once_unique_example :
    (accept_once
      (after (accept_once new (text "ticket_1") 1600 1000).0 calls)
      (text "ticket_1")
      1600
      1630).1
    ≡ false
unfolding new
accept_once_unique_example =
    accept_once_unique new (text "ticket_1") 1600 1600 1000 1630 calls tt accepted_once
      (omega arith, (omega arith, tt)) (omega arith)

abbrev frame : Bytes
frame = session ++ (0xa1 ∷ 0 ∷ 3 ∷ 0x61 ∷ 0xff ∷ [])

parse_auth_hello_token_example : parse_auth_hello_token frame 13 ≢ none
parse_auth_hello_token_example = parse_auth_hello_token-ne-none frame 13 (omega arith)

hello_token_utf8 : is_utf8 (text "a.b") ≡ true
unfolding is_utf8 utf8_from utf8_lead
hello_token_utf8 = refl

parse-hello_buffer_example :
    parse_auth_hello_token (hello_buffer session (text "a.b") (1 ∷ 2 ∷ [])) 14
    ≡ some (ok (text "a.b"))
parse-hello_buffer_example =
    parse-hello_buffer session (text "a.b") (1 ∷ 2 ∷ []) refl (omega arith) (omega arith)
      hello_token_utf8
