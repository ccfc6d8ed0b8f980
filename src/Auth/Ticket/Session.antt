-- ===== src/Auth/Ticket/Session.antt =====
-- The session that a ticket names, in hexadecimal
-- (src/main.rs, `format!("{:016x}", u64::from_be_bytes(session_id))`).
use swifttunnel_relay.Prelude.{
  ℕ, zero, suc, ◌+◌, ◌*◌, ◌/◌, ◌%◌, ◌^◌, ◌<◌, ◌≡◌, refl, ap, sym, ◌∙◌, [], ◌∷◌, ◌++◌, arith, All,
  IsByte, length, Bytes, from_be, ap₂, place_inj,
}
use native.Mathlib.Nat.{pow-suc}
use swifttunnel_relay.Auth.Mode.{RelayAuthConfig, ok}
use swifttunnel_relay.Auth.Ticket.{
  RelayTicketClaims, VerifiedRelayTicket, Crates, hex_digit, hex, session_hex, verify_relay_ticket,
}
use swifttunnel_relay.Auth.Ticket.Sound.{verify_relay_ticket-claims}

append-last_inj : (xs ys : Bytes) (x y : ℕ) → xs ++ (x ∷ []) ≡ ys ++ (y ∷ []) → (xs ≡ ys) × (x ≡ y)
append-last_inj [] [] x y h = (refl, cc)
append-last_inj [] (b ∷ []) x y h = cc
append-last_inj [] (b ∷ c ∷ ys) x y h = cc
append-last_inj (a ∷ []) [] x y h = cc
append-last_inj (a ∷ d ∷ xs) [] x y h = cc
append-last_inj (a ∷ xs) (b ∷ ys) x y h =
    let tails : xs ++ (x ∷ []) ≡ ys ++ (y ∷ []) = cc in
    let heads : a ≡ b = cc in let r = append-last_inj xs ys x y tails in (cc, r.1)

hex_digit_inj : (a b : ℕ) → a < 16 → b < 16 → hex_digit a ≡ hex_digit b → a ≡ b
unfolding hex_digit
hex_digit_inj a b ha hb h = ground arith

hex_inj : (k a b : ℕ) → a < 16 ^ k → b < 16 ^ k → hex k a ≡ hex k b → a ≡ b
unfolding hex
hex_inj zero a b ha hb h = omega arith
hex_inj (suc k) a b ha hb h =
    let (high, low) = append-last_inj (hex k (a / 16)) (hex k (b / 16)) _ _ h in
    let digit = hex_digit_inj (a % 16) (b % 16) (omega arith) (omega arith) low in
    let p = pow-suc 16 k in
    let rest = hex_inj k (a / 16) (b / 16) (omega arith) (omega arith) high in omega arith

-- Words in network order are determined by their bytes' values.
from_be_acc : (acc : ℕ) (bs : Bytes) → from_be acc bs ≡ acc * 256 ^ length bs + from_be 0 bs
from_be_acc acc [] = omega arith
from_be_acc acc (b ∷ bs) = omega (
  arith,
  from_be_acc (acc * 256 + b) bs,
  from_be_acc (0 * 256 + b) bs,
  ap (λ (t : ℕ). acc * t) (pow-suc 256 (length bs)),
)

from_be-lt : (bs : Bytes) → All IsByte bs → from_be 0 bs < 256 ^ length bs
from_be-lt [] h = omega arith
from_be-lt (b ∷ bs) h =
    let ih = from_be-lt bs h.1 in
    let p = pow-suc 256 (length bs) in let e = from_be_acc (0 * 256 + b) bs in grind (arith, h.0)

from_be_inj :
    (xs ys : Bytes)
    → length xs ≡ length ys
    → All IsByte xs
    → All IsByte ys
    → from_be 0 xs ≡ from_be 0 ys
    → xs ≡ ys
from_be_inj [] [] l hx hy h = refl
from_be_inj [] (y ∷ ys) l hx hy h = absurd (omega arith)
from_be_inj (x ∷ xs) [] l hx hy h = absurd (omega arith)
from_be_inj (x ∷ xs) (y ∷ ys) l hx hy h =
    let len : length xs ≡ length ys = omega arith in
    let ex = from_be_acc (0 * 256 + x) xs in
    let ey = from_be_acc (0 * 256 + y) ys in
    let ly = from_be-lt ys hy.1 in
    let width = ap (λ (n : ℕ). 256 ^ n) len in
    let weight = ap (λ (p : ℕ). y * p) width in
    let (heads, tails) =
      place_inj (256 ^ length xs) x y (from_be 0 xs) (from_be 0 ys) (from_be-lt xs hx.1)
        (omega arith) (omega arith) in
    ap₂ ◌∷◌ heads (from_be_inj xs ys len hx.1 hy.1 tails)

-- Two session ids with one hexadecimal form are one id.
pub session_hex_inj :
    (a b : Bytes)
    → length a ≡ 8
    → length b ≡ 8
    → All IsByte a
    → All IsByte b
    → session_hex a ≡ session_hex b
    → a ≡ b
unfolding session_hex
session_hex_inj a b la lb ha hb h =
    let fa = from_be-lt a ha in
    let fb = from_be-lt b hb in
    let wa = ap (λ (n : ℕ). 256 ^ n) la in
    let wb = ap (λ (n : ℕ). 256 ^ n) lb in
    from_be_inj a b (omega arith) ha hb
      (hex_inj 16 (from_be 0 a) (from_be 0 b) (omega arith) (omega arith) h)

module _ (crates : Crates) where
  -- A token opens one session only: if it is accepted for two session ids, at whatever times, they
  -- are the same eight bytes.
  pub verify_relay_ticket_session :
      (token a b : Bytes) (auth : RelayAuthConfig) (now later : ℕ) (t u : VerifiedRelayTicket)
      → length a ≡ 8
      → length b ≡ 8
      → All IsByte a
      → All IsByte b
      → verify_relay_ticket crates token a auth now ≡ ok t
      → verify_relay_ticket crates token b auth later ≡ ok u
      → a ≡ b
  verify_relay_ticket_session token a b auth now later t u la lb ha hb h h' =
      let (claims, signed, good, e) = verify_relay_ticket-claims crates token a auth now t h in
      let (claims', signed', good', e') =
        verify_relay_ticket-claims crates token b auth later u h' in
      let same : claims ≡ claims' = cc in
      session_hex_inj a b la lb ha hb
        (sym good.session ∙ ap (λ (c : RelayTicketClaims). c.sid) same ∙ good'.session)
