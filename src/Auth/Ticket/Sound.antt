-- ===== src/Auth/Ticket/Sound.antt =====
-- The tokens that `verify_relay_ticket` of src/main.rs accepts.
use swifttunnel_relay.Prelude.{
  ℕ, ◌≤◌, ◌<◌, ◌≡◌, ◌↔◌, true, ◌||◌, not, some, arith, length, eqb, Bytes, bytes_eq, ltb,
}
use swifttunnel_relay.Auth.Mode.{RelayAuthConfig, ok}
use swifttunnel_relay.Auth.Ticket.{
  RelayTicketClaims, VerifiedRelayTicket, Crates, split_once, is_empty, decode_base64_flexible,
  signed_claims, verify_relay_ticket, max_auth_token_len,
}
use swifttunnel_relay.Auth.Ticket.Claims.{
  IsGoodFor, ticket_of, is_empty-length, length-is_empty, fail_if-ok, ok_or-ok, >>=-ok, ok_or-some,
  check_claims-Passes, or_false, not-false, Passes-IsGoodFor, IsGoodFor-check_claims,
}

-- The signed part of a token.
pub record IsSigned (crates : Crates) (token : Bytes) (auth : RelayAuthConfig)
    (claims : RelayTicketClaims) : Type 0 where
  pub sized : (0 < length token) × (length token ≤ max_auth_token_len)
  pub halves : Bytes × Bytes
  pub payload : Bytes
  pub signature : Bytes
  pub key : Bytes
  pub split : split_once b'.' token ≡ some halves
  pub decoded : decode_base64_flexible crates halves.0 ≡ some payload
  pub signed_by : decode_base64_flexible crates halves.1 ≡ some signature
  pub signature_len : length signature ≡ 64
  pub configured : auth.public_key ≡ some key
  pub verified : crates.verify key payload signature ≡ true
  pub read : crates.from_slice payload ≡ some claims

module _ (crates : Crates) where
  signed_claims-IsSigned :
      (token : Bytes) (auth : RelayAuthConfig) {claims : RelayTicketClaims}
      → signed_claims crates token auth ≡ ok claims
      → IsSigned crates token auth claims
  unfolding signed_claims
  signed_claims-IsSigned token auth h =
      let (sized, h1) =
        fail_if-ok (is_empty token || ltb max_auth_token_len (length token)) _ _ h in
      let (halves, split, h2) = ok_or-ok (split_once b'.' token) _ _ h1 in
      let (payload, decoded, h3) = ok_or-ok (decode_base64_flexible crates halves.0) _ _ h2 in
      let (signature, signed_by, h4) = ok_or-ok (decode_base64_flexible crates halves.1) _ _ h3 in
      let (len, h5) = fail_if-ok (not (eqb (length signature) 64)) _ _ h4 in
      let (key, configured, h6) = ok_or-ok auth.public_key _ _ h5 in
      let (verified, h7) = fail_if-ok (not (crates.verify key payload signature)) _ _ h6 in
      let (full, short) = or_false (is_empty token) (ltb max_auth_token_len (length token)) sized in
      record {
        sized = (is_empty-length token full, ground (arith, short));
        halves = halves;
        payload = payload;
        signature = signature;
        key = key;
        split = split;
        decoded = decoded;
        signed_by = signed_by;
        signature_len = ground (arith, len);
        configured = configured;
        verified = not-false _ verified;
        read = ok_or-some (crates.from_slice payload) _ h7;
      }

  IsSigned-signed_claims :
      (token : Bytes) (auth : RelayAuthConfig) (claims : RelayTicketClaims)
      → IsSigned crates token auth claims
      → signed_claims crates token auth ≡ ok claims
  unfolding signed_claims
  IsSigned-signed_claims token auth claims s =
      rw
        (
          length-is_empty token s.sized.0,
          s.split,
          s.decoded,
          s.signed_by,
          s.signature_len,
          s.configured,
          s.verified,
          s.read,
        )
        (ground (arith, s.sized))

  -- A token is accepted exactly when it is the base64 of a payload signed under the configured key and
  -- of its signature, and the claims in the payload are good for this session, server and time. The
  -- ticket then carries the claims' account, id, expiry and lease.
  pub verify_relay_ticket_iff :
      (token session_id : Bytes) (auth : RelayAuthConfig) (now_unix : ℕ) (t : VerifiedRelayTicket)
      → (verify_relay_ticket crates token session_id auth now_unix ≡ ok t) ↔ (
          (claims : RelayTicketClaims) × IsSigned crates token auth claims
          × IsGoodFor claims session_id auth now_unix
          × (t ≡ ticket_of claims))
  unfolding verify_relay_ticket
  verify_relay_ticket_iff token session_id auth now_unix t = (
    λ h.
        let (claims, signed, checked) = >>=-ok (signed_claims crates token auth) _ h in
        let (passes, e) = check_claims-Passes claims session_id auth now_unix checked in
        (
          claims,
          signed_claims-IsSigned token auth signed,
          Passes-IsGoodFor claims session_id auth now_unix passes,
          e,
        ),
    λ (claims, signed, good, e). rw (
      IsSigned-signed_claims token auth claims signed,
      IsGoodFor-check_claims claims session_id auth now_unix good,
      e,
    ),
  )

  -- The claims of a token do not depend on the session or the time that it is used at.
  pub verify_relay_ticket-claims :
      (token session_id : Bytes) (auth : RelayAuthConfig) (now_unix : ℕ) (t : VerifiedRelayTicket)
      → verify_relay_ticket crates token session_id auth now_unix ≡ ok t
      → (claims : RelayTicketClaims) × (signed_claims crates token auth ≡ ok claims)
        × IsGoodFor claims session_id auth now_unix
        × (t ≡ ticket_of claims)
  verify_relay_ticket-claims token session_id auth now_unix t h =
      let (claims, signed, good, e) =
        (verify_relay_ticket_iff token session_id auth now_unix t).0 h in
      (claims, IsSigned-signed_claims token auth claims signed, good, e)
