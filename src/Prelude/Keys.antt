-- ===== src/Prelude/Keys.antt =====
-- Equality of map keys as an interface, and the keys that the maps of the relay have.
use Prim.Native.Nat.{ℕ}
use Prim.Native.Char.{code}
use Prim.Native.String.{String}
use mathlib.Core.Path.{◌≡◌}
use mathlib.Core.Logic.{◌↔◌}
use mathlib.Core.Bool.{Bool, true, false, ◌&&◌, ◌||◌}
use mathlib.Core.List.{List, [], ◌∷◌}
use native.Mathlib.Omega.{arith}
use swifttunnel_relay.Prelude.Tests.{eqb, eqb_iff}

pub record Keyed {ℓ} (K : Type ℓ) : Type ℓ where
  pub matches : K → K → Bool
  pub matches_iff : (j k : K) → (matches j k ≡ true) ↔ (j ≡ k)

instance abbrev pub nat_eq : Keyed ℕ
nat_eq = record { matches_iff = eqb_iff; matches = eqb }

-- `j == k` on keys
abbrev pub ◌==◌ {κ} : {K : Type κ} ⦃key : Keyed K⦄ → K → K → Bool
◌==◌ ⦃key⦄ = key.matches

infix 50 ◌==◌
-- Rust's `&str` and `&[u8]`: the bytes.
abbrev pub Bytes : Type 0
Bytes = List ℕ

-- The bytes of an ASCII literal.
abbrev pub text : String → Bytes
text String.[] = []
text (String.◌∷◌ c s) = code c ∷ text s

unfoldable pub bytes_beq : Bytes → Bytes → Bool
bytes_beq [] [] = true
bytes_beq [] (y ∷ ys) = false
bytes_beq (x ∷ xs) [] = false
bytes_beq (x ∷ xs) (y ∷ ys) = eqb x y && bytes_beq xs ys

pub bytes_beq_iff : (xs ys : Bytes) → (bytes_beq xs ys ≡ true) ↔ (xs ≡ ys)
unfolding bytes_beq
bytes_beq_iff [] [] = ground arith
bytes_beq_iff [] (y ∷ ys) = ground arith
bytes_beq_iff (x ∷ xs) [] = ground arith
bytes_beq_iff (x ∷ xs) (y ∷ ys) = ground (arith, bytes_beq_iff xs ys)

instance abbrev pub bytes_eq : Keyed Bytes
bytes_eq = record { matches = bytes_beq; matches_iff = bytes_beq_iff }

module _ {ℓ} {A : Type ℓ} ⦃e : Keyed A⦄ where
  abbrev pub contains : List A → A → Bool
  contains [] a = false
  contains (x ∷ xs) a = x == a || contains xs a
