-- ===== src/Auth/Ticket.antt =====
-- src/main.rs, `verify_relay_ticket` and `verify_relay_ticket_once`. The crates that decode base64,
-- check an Ed25519 signature and read the claims from JSON are parameters. Text is its bytes.
pub mod Claims
pub mod Sound
pub mod NoReplay
pub mod Session
use swifttunnel_relay.Prelude.{
  ℕ, zero, suc, ◌+◌, ◌-◌, ◌/◌, ◌%◌, Bool, true, false, not, ◌&&◌, ◌||◌, List, [], ◌∷◌, ◌++◌, Option,
  none, some, length, all, if◌then◌else◌, ltb, leb, eqb, ◌==◌, Bytes, bytes_eq, text, from_be,
  saturating_add,
}
use swifttunnel_relay.Auth.Mode.{
  RelayAuthConfig, bad_format, bad_signature, expired, sid_mismatch, server_mismatch, replay,
  Verified, ok, err, ◌>>=◌, ◌>>◌, fail_if, ok_or,
}
use swifttunnel_relay.Auth.Replay.{RelayTicketReplayCache, auth_clock_skew_secs, accept_once}

abbrev pub max_auth_token_len : ℕ
max_auth_token_len = 4096

pub record RelayTicketClaims : Type 0 where
  pub v : ℕ
  pub iss : Bytes
  pub aud : Bytes
  pub sub : Bytes
  pub sid : Bytes
  pub srv : Bytes
  pub iat : ℕ
  pub exp : ℕ
  pub jti : Bytes
  pub lease : Bool

pub record VerifiedRelayTicket : Type 0 where
  pub user_id : Bytes
  pub jti : Bytes
  pub exp : ℕ
  pub lease : Bool

-- The base64 engines, `UnparsedPublicKey::verify` and `serde_json::from_slice`.
pub record Crates : Type 0 where
  pub base64_url_safe_no_pad : Bytes → Option Bytes
  pub base64_url_safe : Bytes → Option Bytes
  pub base64_standard : Bytes → Option Bytes
  pub verify : Bytes → Bytes → Bytes → Bool
  pub from_slice : Bytes → Option RelayTicketClaims

abbrev or_else : Option Bytes → Option Bytes → Option Bytes
or_else none o = o
or_else (some a) o = some a

-- `str::split_once` with one character
unfoldable pub split_once : ℕ → Bytes → Option (Bytes × Bytes)
split_once c [] = none
split_once c (b ∷ bs) =
    if eqb b c
    then some ([], bs)
    else elim (split_once c bs) [ none ↦ none | some (before, after) ↦ some (b ∷ before, after) ]

abbrev pub is_empty : Bytes → Bool
is_empty [] = true
is_empty (b ∷ bs) = false

-- `u8::is_ascii_alphanumeric`
unfoldable pub is_ascii_alphanumeric : ℕ → Bool
is_ascii_alphanumeric c =
    (leb b'0' c && leb c b'9') || ((leb b'A' c && leb c b'Z') || (leb b'a' c && leb c b'z'))

unfoldable pub hex_digit : ℕ → ℕ
hex_digit d = if ltb d 10 then b'0' + d else b'a' + (d - 10)

-- the low digits of a number in base 16
unfoldable pub hex : ℕ → ℕ → Bytes
hex zero n = []
hex (suc k) n = hex k (n / 16) ++ (hex_digit (n % 16) ∷ [])

-- `format!("{:016x}", u64::from_be_bytes(session_id))`
unfoldable pub session_hex : Bytes → Bytes
session_hex session_id = hex 16 (from_be 0 session_id)

-- the first test on the claims
unfoldable pub malformed : RelayTicketClaims → Bool
malformed claims =
    not (eqb claims.v 1)
    || (not claims.lease
        || (ltb 64 (length claims.sub)
            || (is_empty claims.jti
                || (ltb 128 (length claims.jti)
                    || (not (all (λ c. is_ascii_alphanumeric c || eqb c b'-') claims.sub)
                        || (not (
                              all (λ c. is_ascii_alphanumeric c || (eqb c b'-' || eqb c b'_'))
                                claims.jti)
                            || (is_empty claims.srv
                                || (ltb 64 (length claims.srv)
                                    || (leb claims.exp claims.iat
                                        || ltb 900 (claims.exp - claims.iat))))))))))

-- the second
unfoldable pub wrong_parties : RelayTicketClaims → Bool
wrong_parties claims =
    not (claims.iss == text "swifttunnel-web")
    || (not (claims.aud == text "swifttunnel-relay") || is_empty claims.sub)

-- the tests on the claims and the ticket that they give
unfoldable pub check_claims :
    RelayTicketClaims → Bytes → RelayAuthConfig → ℕ → Verified VerifiedRelayTicket
check_claims claims session_id auth now_unix = do
  fail_if (malformed claims) bad_format
  fail_if (wrong_parties claims) bad_format
  fail_if (not (claims.sid == session_hex session_id)) sid_mismatch
  expected_server ← ok_or auth.server_id bad_format
  fail_if (not (claims.srv == expected_server)) server_mismatch
  fail_if (ltb (saturating_add now_unix auth_clock_skew_secs) claims.iat) bad_format
  fail_if (leb claims.exp now_unix) expired
  ok (record { user_id = claims.sub; jti = claims.jti; exp = claims.exp; lease = claims.lease })

module _ (crates : Crates) where
  unfoldable pub decode_base64_flexible : Bytes → Option Bytes
  decode_base64_flexible input =
      or_else (or_else (crates.base64_url_safe_no_pad input) (crates.base64_url_safe input))
        (crates.base64_standard input)

  -- the payload of a token whose signature fits the configured key, read as claims
  unfoldable pub signed_claims : Bytes → RelayAuthConfig → Verified RelayTicketClaims
  signed_claims token auth = do
    fail_if (is_empty token || ltb max_auth_token_len (length token)) bad_format
    (payload_b64, signature_b64) ← ok_or (split_once b'.' token) bad_format
    payload ← ok_or (decode_base64_flexible payload_b64) bad_format
    signature ← ok_or (decode_base64_flexible signature_b64) bad_format
    fail_if (not (eqb (length signature) 64)) bad_format
    public_key ← ok_or auth.public_key bad_format
    fail_if (not (crates.verify public_key payload signature)) bad_signature
    ok_or (crates.from_slice payload) bad_format

  unfoldable pub verify_relay_ticket :
      Bytes → Bytes → RelayAuthConfig → ℕ → Verified VerifiedRelayTicket
  verify_relay_ticket token session_id auth now_unix = do
    claims ← signed_claims token auth
    check_claims claims session_id auth now_unix

  -- the rest of `verify_relay_ticket_once` after the verification
  unfoldable pub admit_once :
      RelayTicketReplayCache
      → ℕ
      → Verified VerifiedRelayTicket
      → RelayTicketReplayCache × Verified VerifiedRelayTicket
  admit_once cache now_unix (err e) = (cache, err e)
  admit_once cache now_unix (ok ticket) =
      let (cache', fresh) = accept_once cache ticket.jti ticket.exp now_unix in
      if not fresh then (cache', err replay) else (cache', ok ticket)

  unfoldable pub verify_relay_ticket_once :
      Bytes
      → Bytes
      → RelayAuthConfig
      → ℕ
      → RelayTicketReplayCache
      → RelayTicketReplayCache × Verified VerifiedRelayTicket
  verify_relay_ticket_once token session_id auth now_unix cache =
      admit_once cache now_unix (verify_relay_ticket token session_id auth now_unix)
