-- ===== src/Prelude/Bits.antt =====
-- `&` with a contiguous mask, as arithmetic, at every width.
use Prim.Native.Nat.{
  ℕ, zero, suc, ◌+◌, ◌-◌, ◌*◌, ◌/◌, ◌%◌, ◌^◌, ◌≤◌, ◌<◌, min, bit_and, digits, bit_and-bitwise,
}
use mathlib.Core.Path.{◌≡◌, refl, sym, ap, ap₂}
use mathlib.Core.Logic.{inl, inr}
use swifttunnel_relay.Prelude.Tests.{le_or_lt}
use native.Mathlib.Omega.{arith}
use native.Mathlib.Nat.{pow-suc, one-le-pow}

abbrev low_digits : ℕ → ℕ → ℕ → ℕ
low_digits = digits (λ _. zero) min

-- The digits that stand for `&` come out the same at every fuel that reaches the first operand.
digits_lem : (most fuel x y : ℕ) → fuel ≤ most → x ≤ fuel → low_digits fuel x y ≡ bit_and x y
digits_lem most zero zero y le h = sym (bit_and-bitwise 0 y)
digits_lem most zero (suc x) y le h = absurd (omega arith)
digits_lem most (suc fuel) zero y le h = sym (bit_and-bitwise 0 y)
digits_lem zero (suc fuel) (suc x) y le h = absurd (omega arith)
digits_lem (suc most) (suc fuel) (suc x) y le h =
    let here = digits_lem most fuel (suc x / 2) (y / 2) (omega arith) (omega arith) in
    let there = digits_lem most x (suc x / 2) (y / 2) (omega arith) (omega arith) in
    omega (arith, here, there, bit_and-bitwise (suc x) y)

-- The lowest digit.
pub bit_and_step : (a b : ℕ) → bit_and a b ≡ bit_and (a / 2) (b / 2) * 2 + min (a % 2) (b % 2)
bit_and_step zero y = omega (arith, bit_and-bitwise 0 y, bit_and-bitwise 0 (y / 2))
bit_and_step (suc x) y =
    let rest = digits_lem x x (suc x / 2) (y / 2) (omega arith) (omega arith) in
    omega (arith, rest, bit_and-bitwise (suc x) y)

zero_right : (most x : ℕ) → x ≤ most → bit_and x 0 ≡ 0
zero_right zero x le = let e : x ≡ 0 = omega arith in rw e refl
zero_right (suc most) x le = elim (le_or_lt x 0) [
  | inl small ↦ let e : x ≡ 0 = omega arith in rw e refl
  | inr big ↦ omega (arith, bit_and_step x 0, zero_right most (x / 2) (omega arith))
]

pub bit_and-zero : (a : ℕ) → bit_and a 0 ≡ 0
bit_and-zero x = zero_right x x (omega arith)

-- A mask of low ones keeps a number that fits it.
pub bit_and_ones : (n a : ℕ) → a < 2 ^ n → bit_and a (2 ^ n - 1) ≡ a
bit_and_ones zero a h = omega (arith, bit_and-zero a)
bit_and_ones (suc n) a h =
    let p = pow-suc 2 n in
    let half : (2 ^ suc n - 1) / 2 ≡ 2 ^ n - 1 = omega (arith, one-le-pow n 2) in
    let ih = bit_and_ones n (a / 2) (omega arith) in
    omega (arith, bit_and_step a (2 ^ suc n - 1), ap (bit_and (a / 2)) half, one-le-pow n 2)

-- A shifted mask drops the low digits and masks the rest.
pub bit_and_shifted :
    (k q r m : ℕ) → r < 2 ^ k → bit_and (q * 2 ^ k + r) (m * 2 ^ k) ≡ bit_and q m * 2 ^ k
bit_and_shifted zero q r m h =
    let e : q * 2 ^ 0 + r ≡ q = omega arith in
    let f : m * 2 ^ 0 ≡ m = omega arith in rw (e, f) (omega arith)
bit_and_shifted (suc k) q r m h =
    let p = pow-suc 2 k in
    let a = q * 2 ^ suc k + r in
    let b = m * 2 ^ suc k in
    let qs : q * 2 ^ suc k ≡ 2 * (q * 2 ^ k) = omega (arith, ap (λ (t : ℕ). q * t) p) in
    let ms : m * 2 ^ suc k ≡ 2 * (m * 2 ^ k) = omega (arith, ap (λ (t : ℕ). m * t) p) in
    let rs : bit_and q m * 2 ^ suc k ≡ 2 * (bit_and q m * 2 ^ k) =
      omega (arith, ap (λ (t : ℕ). bit_and q m * t) p) in
    let ha : a / 2 ≡ q * 2 ^ k + r / 2 = omega arith in
    let hb : b / 2 ≡ m * 2 ^ k = omega arith in
    let ih = bit_and_shifted k q (r / 2) m (omega arith) in
    omega (arith, bit_and_step a b, ap₂ bit_and ha hb)

pub pow-add : (m n : ℕ) → 2 ^ (m + n) ≡ 2 ^ m * 2 ^ n
pow-add m zero = let e : m + 0 ≡ m = omega arith in rw e (omega arith)
pow-add m (suc n) =
    let e : m + suc n ≡ suc (m + n) = omega arith in
    omega (
      arith,
      ap (λ (t : ℕ). 2 ^ t) e,
      pow-suc 2 (m + n),
      pow-suc 2 n,
      pow-add m n,
      ap (λ (t : ℕ). 2 ^ m * t) (pow-suc 2 n),
    )
