-- ===== src/Auth/Ticket/Claims.antt =====
-- The claims that `verify_relay_ticket` of src/main.rs looks at.
use swifttunnel_relay.Prelude.{
  ℕ, ◌+◌, ◌-◌, ◌≤◌, ◌<◌, ◌≡◌, Bool, true, false, ◌||◌, not, Option, none, some, arith, length, all,
  eqb, ◌==◌, Bytes, bytes_eq, bytes_beq_iff, text, saturating_add, [], refl, sym, ap, ◌∙◌, ltb, leb,
  ◌∷◌,
}
use swifttunnel_relay.Auth.Mode.{
  RelayAuthConfig, RelayAuthVerifyError, Verified, ok, err, ◌>>=◌, ◌>>◌, fail_if, ok_or,
}
use swifttunnel_relay.Auth.Replay.{auth_clock_skew_secs}
use swifttunnel_relay.Auth.Ticket.{
  RelayTicketClaims, VerifiedRelayTicket, is_empty, is_ascii_alphanumeric, session_hex, malformed,
  wrong_parties, check_claims,
}

-- What a ticket must say to be good for a session of this server at a time.
pub record IsGoodFor (claims : RelayTicketClaims) (session_id : Bytes) (auth : RelayAuthConfig)
    (now_unix : ℕ) : Type 0 where
  pub version : claims.v ≡ 1
  pub leased : claims.lease ≡ true
  pub issuer : claims.iss ≡ text "swifttunnel-web"
  pub audience : claims.aud ≡ text "swifttunnel-relay"
  pub sub_named : (0 < length claims.sub) × (length claims.sub ≤ 64)
  pub sub_plain : all (λ c. is_ascii_alphanumeric c || eqb c b'-') claims.sub ≡ true
  pub jti_named : (0 < length claims.jti) × (length claims.jti ≤ 128)
  pub jti_plain : all (λ c. is_ascii_alphanumeric c || (eqb c b'-' || eqb c b'_')) claims.jti ≡ true
  pub session : claims.sid ≡ session_hex session_id
  pub server : auth.server_id ≡ some claims.srv
  pub srv_named : (0 < length claims.srv) × (length claims.srv ≤ 64)
  pub issued : claims.iat ≤ saturating_add now_unix auth_clock_skew_secs
  pub unexpired : now_unix < claims.exp
  pub lifetime : (claims.iat < claims.exp) × (claims.exp ≤ claims.iat + 900)

pub is_empty-length : (bs : Bytes) → is_empty bs ≡ false → 0 < length bs
is_empty-length [] h = cc
is_empty-length (b ∷ bs) h = omega arith

pub length-is_empty : (bs : Bytes) → 0 < length bs → is_empty bs ≡ false
length-is_empty [] h = elim h [ ]
length-is_empty (b ∷ bs) h = refl

-- the tests of `check_claims`, each passed
pub record Passes (claims : RelayTicketClaims) (session_id : Bytes) (auth : RelayAuthConfig)
    (now_unix : ℕ) : Type 0 where
  formed : malformed claims ≡ false
  parties : wrong_parties claims ≡ false
  session : (claims.sid == session_hex session_id) ≡ true
  server : Bytes
  configured : auth.server_id ≡ some server
  served : (claims.srv == server) ≡ true
  issued : ltb (saturating_add now_unix auth_clock_skew_secs) claims.iat ≡ false
  unexpired : leb claims.exp now_unix ≡ false

pub fail_if-ok {ℓ} :
    {B : Type ℓ} (b : Bool) (e : RelayAuthVerifyError) (k : Verified B) {t : B}
    → (fail_if b e >> k) ≡ ok t
    → (b ≡ false) × (k ≡ ok t)
fail_if-ok true e k h = cc
fail_if-ok false e k h = (refl, h)

pub ok_or-ok {ℓ κ} :
    {A : Type ℓ} {B : Type κ} (o : Option A) (e : RelayAuthVerifyError) (f : A → Verified B) {t : B}
    → (ok_or o e >>= f) ≡ ok t
    → (a : A) × (o ≡ some a) × (f a ≡ ok t)
ok_or-ok none e f h = cc
ok_or-ok (some a) e f h = (a, refl, h)

pub >>=-ok {ℓ κ} :
    {A : Type ℓ} {B : Type κ} (m : Verified A) (f : A → Verified B) {t : B}
    → (m >>= f) ≡ ok t
    → (a : A) × (m ≡ ok a) × (f a ≡ ok t)
>>=-ok (ok a) f h = (a, refl, h)
>>=-ok (err e) f h = cc

pub ok_or-some {ℓ} :
    {A : Type ℓ} (o : Option A) (e : RelayAuthVerifyError) {a : A} → ok_or o e ≡ ok a → o ≡ some a
ok_or-some none e h = cc
ok_or-some (some b) e h = cc

abbrev pub ticket_of : RelayTicketClaims → VerifiedRelayTicket
ticket_of claims = record {
  user_id = claims.sub;
  jti = claims.jti;
  exp = claims.exp;
  lease = claims.lease;
}

pub check_claims-Passes :
    (claims : RelayTicketClaims) (session_id : Bytes) (auth : RelayAuthConfig) (now_unix : ℕ)
    {t : VerifiedRelayTicket}
    → check_claims claims session_id auth now_unix ≡ ok t
    → Passes claims session_id auth now_unix × (t ≡ ticket_of claims)
unfolding check_claims
check_claims-Passes claims session_id auth now_unix h =
    let (formed, h1) = fail_if-ok (malformed claims) _ _ h in
    let (parties, h2) = fail_if-ok (wrong_parties claims) _ _ h1 in
    let (session, h3) = fail_if-ok (not (claims.sid == session_hex session_id)) _ _ h2 in
    let (server, configured, h4) = ok_or-ok auth.server_id _ _ h3 in
    let (served, h5) = fail_if-ok (not (claims.srv == server)) _ _ h4 in
    let (issued, h6) =
      fail_if-ok (ltb (saturating_add now_unix auth_clock_skew_secs) claims.iat) _ _ h5 in
    let (unexpired, h7) = fail_if-ok (leb claims.exp now_unix) _ _ h6 in
    (
      record {
        formed = formed;
        parties = parties;
        session = ground arith;
        server = server;
        configured = configured;
        served = ground arith;
        issued = issued;
        unexpired = unexpired;
      },
      cc,
    )

-- what the first test on the claims lets through
abbrev WellFormed : RelayTicketClaims → Type 0
WellFormed claims =
    (claims.v ≡ 1)
    × (claims.lease ≡ true)
    × (length claims.sub ≤ 64)
    × (is_empty claims.jti ≡ false)
    × (length claims.jti ≤ 128)
    × (all (λ c. is_ascii_alphanumeric c || eqb c b'-') claims.sub ≡ true)
    × (all (λ c. is_ascii_alphanumeric c || (eqb c b'-' || eqb c b'_')) claims.jti ≡ true)
    × (is_empty claims.srv ≡ false)
    × (length claims.srv ≤ 64)
    × (claims.iat < claims.exp)
    × (claims.exp ≤ claims.iat + 900)

pub or_false : (a b : Bool) → (a || b) ≡ false → (a ≡ false) × (b ≡ false)
or_false a b h = ground arith

pub not-false : (b : Bool) → not b ≡ false → b ≡ true
not-false b h = ground arith

malformed-WellFormed : (claims : RelayTicketClaims) → malformed claims ≡ false → WellFormed claims
unfolding malformed
malformed-WellFormed claims h =
    let (v, h1) = or_false (not (eqb claims.v 1)) _ h in
    let (lease, h2) = or_false _ _ h1 in
    let (sub, h3) = or_false (ltb 64 (length claims.sub)) _ h2 in
    let (jti, h4) = or_false _ _ h3 in
    let (jti_len, h5) = or_false (ltb 128 (length claims.jti)) _ h4 in
    let (sub_plain, h6) = or_false _ _ h5 in
    let (jti_plain, h7) = or_false _ _ h6 in
    let (srv, h8) = or_false _ _ h7 in
    let (srv_len, h9) = or_false (ltb 64 (length claims.srv)) _ h8 in
    let (order, life) =
      or_false (leb claims.exp claims.iat) (ltb 900 (claims.exp - claims.iat)) h9 in
    (
      ground (arith, v),
      not-false _ lease,
      ground (arith, sub),
      jti,
      ground (arith, jti_len),
      not-false _ sub_plain,
      not-false _ jti_plain,
      srv,
      ground (arith, srv_len),
      ground (arith, order),
      ground (arith, life),
    )

WellFormed-malformed : (claims : RelayTicketClaims) → WellFormed claims → malformed claims ≡ false
unfolding malformed
WellFormed-malformed claims
      (v, lease, sub, jti, jti_len, sub_plain, jti_plain, srv, srv_len, order, life) =
    rw (lease, jti, sub_plain, jti_plain, srv) (ground arith)

pub Passes-IsGoodFor :
    (claims : RelayTicketClaims) (session_id : Bytes) (auth : RelayAuthConfig) (now_unix : ℕ)
    → Passes claims session_id auth now_unix
    → IsGoodFor claims session_id auth now_unix
unfolding wrong_parties
Passes-IsGoodFor claims session_id auth now_unix p =
    let (v, lease, sub, jti, jti_len, sub_plain, jti_plain, srv, srv_len, order, life) =
      malformed-WellFormed claims p.formed in
    let (iss, r) = or_false _ _ p.parties in
    let (aud, named) = or_false _ _ r in
    record {
      version = v;
      leased = lease;
      issuer = (bytes_beq_iff _ _).0 (not-false _ iss);
      audience = (bytes_beq_iff _ _).0 (not-false _ aud);
      sub_named = (is_empty-length claims.sub named, sub);
      sub_plain = sub_plain;
      jti_named = (is_empty-length claims.jti jti, jti_len);
      jti_plain = jti_plain;
      session = (bytes_beq_iff _ _).0 p.session;
      server = p.configured ∙ ap some (sym ((bytes_beq_iff _ _).0 p.served));
      srv_named = (is_empty-length claims.srv srv, srv_len);
      issued = ground (arith, p.issued);
      unexpired = ground (arith, p.unexpired);
      lifetime = (order, life);
    }

pub IsGoodFor-check_claims :
    (claims : RelayTicketClaims) (session_id : Bytes) (auth : RelayAuthConfig) (now_unix : ℕ)
    → IsGoodFor claims session_id auth now_unix
    → check_claims claims session_id auth now_unix ≡ ok (ticket_of claims)
unfolding check_claims wrong_parties
IsGoodFor-check_claims claims session_id auth now_unix g =
    let formed = WellFormed-malformed claims (
      g.version,
      g.leased,
      g.sub_named.1,
      length-is_empty claims.jti g.jti_named.0,
      g.jti_named.1,
      g.sub_plain,
      g.jti_plain,
      length-is_empty claims.srv g.srv_named.0,
      g.srv_named.1,
      g.lifetime.0,
      g.lifetime.1,
    ) in
    rw
      (
        formed,
        (bytes_beq_iff claims.iss (text "swifttunnel-web")).1 g.issuer,
        (bytes_beq_iff claims.aud (text "swifttunnel-relay")).1 g.audience,
        length-is_empty claims.sub g.sub_named.0,
        (bytes_beq_iff claims.sid (session_hex session_id)).1 g.session,
        g.server,
        (bytes_beq_iff claims.srv claims.srv).1 refl,
      )
      (ground (arith, g.issued, g.unexpired))
