-- ===== src/Auth/Mode.antt =====
-- src/main.rs: `RelayAuthMode`, `RelayAuthConfig`, the verification errors and their status bytes.
use swifttunnel_relay.Prelude.{ℕ, Bool, true, false, Option, none, some, Bytes}

pub data RelayAuthMode : Type 0 where
  off optional required : RelayAuthMode

unfoldable pub requires_auth : RelayAuthMode → Bool
requires_auth off = false
requires_auth optional = true
requires_auth required = true

pub record RelayAuthConfig : Type 0 where
  pub mode : RelayAuthMode
  pub public_key : Option Bytes
  pub server_id : Option Bytes

pub data RelayAuthVerifyError : Type 0 where
  bad_format bad_signature expired sid_mismatch server_mismatch replay owner_mismatch :
      RelayAuthVerifyError

unfoldable pub ack_status : RelayAuthVerifyError → ℕ
ack_status bad_format = 1
ack_status bad_signature = 2
ack_status expired = 3
ack_status sid_mismatch = 4
ack_status server_mismatch = 5
ack_status replay = 7
ack_status owner_mismatch = 8

-- `Result<A, RelayAuthVerifyError>`
pub data Verified {ℓ} (A : Type ℓ) : Type ℓ where
  ok : A → Verified A
  err : RelayAuthVerifyError → Verified A

infixl 5 ◌>>=◌ ◌>>◌
abbrev pub ◌>>=◌ {ℓ κ} : {A : Type ℓ} {B : Type κ} → Verified A → (A → Verified B) → Verified B
ok a >>= f = f a
err e >>= f = err e

abbrev pub ◌>>◌ {ℓ} : {B : Type ℓ} → Verified (Unit {0}) → Verified B → Verified B
m >> k = m >>= λ _. k

-- `if condition { return Err(error) }`
abbrev pub fail_if : Bool → RelayAuthVerifyError → Verified (Unit {0})
fail_if true e = err e
fail_if false e = ok tt

-- `option.ok_or(error)?`
abbrev pub ok_or {ℓ} : {A : Type ℓ} → Option A → RelayAuthVerifyError → Verified A
ok_or none e = err e
ok_or (some a) e = ok a
