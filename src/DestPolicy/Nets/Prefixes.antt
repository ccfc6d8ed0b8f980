-- ===== src/DestPolicy/Nets/Prefixes.antt =====
-- Prefixes as blocks of addresses, and how two blocks lie (src/dest_policy.rs, `Net`).
use Prim.Native.Nat.{bit_and}
use native.Mathlib.Nat.{one-le-pow, pow-suc}
use swifttunnel_relay.Prelude.{
  ℕ, zero, suc, ◌+◌, ◌-◌, ◌*◌, ◌/◌, ◌%◌, ◌^◌, ◌≤◌, ◌<◌, ◌≡◌, ap, sym, ◌∙◌, inl, inr, ◌↔◌, true,
  false, arith, u32_mod, le_or_lt, place_inj, multiple_gap,
}
use swifttunnel_relay.Prelude.Bits.{bit_and_ones, bit_and_shifted, pow-add}
use swifttunnel_relay.DestPolicy.Nets.{Net, net_contains, covers, key_le}

-- The mask leaves `host` low bits free, and the base is a multiple of their range.
pub record IsPrefix (net : Net) : Type 0 where
  pub host : ℕ
  pub width : ℕ
  pub block : ℕ
  pub sums : width + host ≡ 32
  pub mask_eq : net.mask ≡ (2 ^ width - 1) * 2 ^ host
  pub base_eq : net.base ≡ block * 2 ^ host
  pub fits : block < 2 ^ width

-- how many addresses the block has
abbrev pub size : {net : Net} → IsPrefix net → ℕ
size p = 2 ^ p.host

pub div_block : (x p : ℕ) → 0 < p → (x ≡ x / p * p + x % p) × (x % p < p)
div_block x p h = grind arith

pub power_32 : (net : Net) (p : IsPrefix net) → 2 ^ p.width * 2 ^ p.host ≡ u32_mod
power_32 net p = sym (pow-add p.width p.host) ∙ ap (λ (n : ℕ). 2 ^ n) p.sums

pub lt_of_mul : (x y p : ℕ) → x * p < y * p → x < y
lt_of_mul x y p h = elim (le_or_lt y x) [
  | inl le ↦ let m : y * p ≤ x * p = grind arith in absurd (omega arith)
  | inr lt ↦ lt
]

size-pos : {net : Net} (p : IsPrefix net) → 0 < size p
size-pos p = one-le-pow p.host 2 (omega arith)

-- Masking takes an address down to the start of its block.
pub masked :
    (net : Net) (p : IsPrefix net) (ip : ℕ)
    → ip < u32_mod
    → bit_and ip net.mask ≡ ip / size p * size p
masked net p ip h =
    let (split, rest) = div_block ip (size p) (size-pos p) in
    let e = power_32 net p in
    let q_lt = lt_of_mul (ip / size p) (2 ^ p.width) (size p) (omega arith) in
    let shifted = bit_and_shifted p.host (ip / size p) (ip % size p) (2 ^ p.width - 1) rest in
    let ones = bit_and_ones p.width (ip / size p) q_lt in
    ap (λ (x : ℕ). bit_and x net.mask) split
    ∙ ap (bit_and (ip / size p * size p + ip % size p)) p.mask_eq
    ∙ shifted
    ∙ ap (λ (x : ℕ). x * size p) ones

-- A prefix contains exactly the addresses of its block.
pub contains_iff :
    (net : Net) (p : IsPrefix net) (ip : ℕ)
    → ip < u32_mod
    → (net_contains net ip ≡ true) ↔ ((net.base ≤ ip) × (ip < net.base + size p))
unfolding net_contains
contains_iff net p ip h =
    let (split, rest) = div_block ip (size p) (size-pos p) in
    let m = masked net p ip h in
    let base = p.base_eq in
    (
      λ c. ground (arith, c, m),
      λ (lo, hi).
          let (same, _) =
            place_inj (size p) (ip / size p) p.block (ip % size p) (ip - p.block * size p) rest
              (omega arith) (omega arith) in
          ground (arith, m, ap (λ (t : ℕ). t * size p) same),
    )

pred_mul : (w s : ℕ) → 0 < w → (w - 1) * s + s ≡ w * s
pred_mul zero s h = elim h [ ]
pred_mul (suc w) s h = let e : suc w - 1 ≡ w = omega arith in omega (arith, ap (λ (t : ℕ). t * s) e)

pub mask-add-size : (net : Net) (p : IsPrefix net) → net.mask + size p ≡ u32_mod
mask-add-size net p = omega (
  arith,
  p.mask_eq,
  power_32 net p,
  pred_mul (2 ^ p.width) (size p) (one-le-pow p.width 2 (omega arith)),
)

pow_split : (a b : ℕ) → a ≤ b → 2 ^ b ≡ 2 ^ (b - a) * 2 ^ a
pow_split a b h = let e : b ≡ b - a + a = omega arith in ap (λ (n : ℕ). 2 ^ n) e ∙ pow-add (b - a) a

-- The larger of two blocks begins and ends on the boundaries of the smaller.
aligned : (a b : ℕ) → 2 ^ a ≤ 2 ^ b → (d : ℕ) × (2 ^ b ≡ d * 2 ^ a)
aligned a b h = elim (le_or_lt a b) [
  | inl le ↦ (2 ^ (b - a), pow_split a b le)
  | inr lt ↦
      let e = pow_split b a (omega arith) in
      let two : 2 ≤ 2 ^ (a - b) =
        let s : a - b ≡ suc (a - b - 1) = omega arith in
        omega (
          arith,
          ap (λ (n : ℕ). 2 ^ n) s,
          pow-suc 2 (a - b - 1),
          one-le-pow (a - b - 1) 2 (omega arith),
        ) in
      let pos = one-le-pow b 2 (omega arith) in
      let m : 2 * 2 ^ b ≤ 2 ^ (a - b) * 2 ^ b = grind arith in absurd (omega arith)
]

-- A covered prefix lies inside.
pub covers-nested :
    (l n : Net) (p : IsPrefix l) (q : IsPrefix n)
    → covers l n ≡ true
    → n.base < u32_mod
    → (l.base ≤ n.base) × (n.base + size q ≤ l.base + size p)
unfolding covers
covers-nested l n p q c h =
    let ml = mask-add-size l p in
    let mn = mask-add-size n q in
    let inside : net_contains l n.base ≡ true = ground (arith, c) in
    let (lo, hi) = (contains_iff l p n.base h).0 inside in
    let order : l.mask ≤ n.mask = ground (arith, c) in
    let (d, e) = aligned q.host p.host (omega arith) in
    let start = ap (λ (t : ℕ). p.block * t) e in
    let gap =
      multiple_gap (size q) q.block (p.block * d + d) (omega (arith, p.base_eq, q.base_eq)) in
    (lo, omega (arith, p.base_eq, q.base_eq))

-- A prefix that comes after another in the sort and is not covered lies behind it.
pub uncovered-disjoint :
    (l n : Net) (p : IsPrefix l) (q : IsPrefix n)
    → key_le l n ≡ true
    → covers l n ≡ false
    → n.base < u32_mod
    → l.base + size p ≤ n.base
unfolding covers key_le
uncovered-disjoint l n p q k c h = elim (le_or_lt (l.base + size p) n.base) [
  | inl behind ↦ behind
  | inr before ↦
      let ml = mask-add-size l p in
      let mn = mask-add-size n q in
      let lo : l.base ≤ n.base = ground (arith, k) in
      let inside = (contains_iff l p n.base h).1 (lo, before) in
      let order : n.mask < l.mask = ground (arith, c, inside) in
      let (d, e) = aligned p.host q.host (omega arith) in
      let start = ap (λ (t : ℕ). q.block * t) e in
      let gap = multiple_gap (size p) p.block (q.block * d) in
      let same : l.base ≡ n.base = elim (le_or_lt n.base l.base) [
        | inl le ↦ omega arith
        | inr lt ↦
            absurd (omega (arith, gap (omega (arith, p.base_eq, q.base_eq)), p.base_eq, q.base_eq))
      ] in
      absurd (ground (arith, k, same, order))
]
