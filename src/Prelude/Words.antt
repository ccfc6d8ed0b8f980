-- ===== src/Prelude/Words.antt =====
-- Machine words as native numbers, and their bytes in network order.
use Prim.Native.Nat.{ℕ, ◌+◌, ◌*◌, ◌≤◌, ◌<◌, min}
use mathlib.Core.Path.{◌≡◌}
use mathlib.Core.List.{List, [], ◌∷◌}
use mathlib.Core.Path.{ap}
use mathlib.Core.Logic.{inl, inr}
use native.Mathlib.Omega.{arith}
use swifttunnel_relay.Prelude.Tests.{le_or_lt}

abbrev pub u32_mod : ℕ
u32_mod = 0x1_0000_0000

abbrev pub u64_max : ℕ
u64_max = 0xffff_ffff_ffff_ffff

-- `u16::from_be_bytes([hi, lo])`
abbrev pub be16 : ℕ → ℕ → ℕ
be16 hi lo = hi * 256 + lo

-- `u32::from(Ipv4Addr::new(a, b, c, d))`
abbrev pub be32 : ℕ → ℕ → ℕ → ℕ → ℕ
be32 a b c d = ((a * 256 + b) * 256 + c) * 256 + d

-- `u64::from_be_bytes`
abbrev pub from_be : ℕ → List ℕ → ℕ
from_be acc [] = acc
from_be acc (b ∷ bs) = from_be (acc * 256 + b) bs

-- `x.saturating_add(y)` on u64.
abbrev pub saturating_add : ℕ → ℕ → ℕ
saturating_add x y = min (x + y) u64_max

abbrev pub IsByte : ℕ → Type 0
IsByte b = b < 256

-- Numbers in a positional system.
place_lt : (p x y r s : ℕ) → r < p → x < y → x * p + r < y * p + s
place_lt p x y r s hr lt = let m : (x + 1) * p ≤ y * p = grind arith in omega arith

pub place_inj : (p x y r s : ℕ) → r < p → s < p → x * p + r ≡ y * p + s → (x ≡ y) × (r ≡ s)
place_inj p x y r s hr hs e = elim (le_or_lt x y) [
  | inl le ↦ elim (le_or_lt y x) [
    | inl ge ↦ let same : x ≡ y = omega arith in (same, omega (arith, ap (λ (t : ℕ). t * p) same))
    | inr lt ↦ absurd (omega (arith, place_lt p x y r s hr lt))
  ]
  | inr lt ↦ absurd (omega (arith, place_lt p y x s r hs lt))
]

-- Distinct multiples lie a whole step apart.
pub multiple_gap : (p x y : ℕ) → x * p < y * p → x * p + p ≤ y * p
multiple_gap p x y h = elim (le_or_lt y x) [
  | inl le ↦ let m : y * p ≤ x * p = grind arith in absurd (omega arith)
  | inr lt ↦ let m : (x + 1) * p ≤ y * p = grind arith in omega arith
]
