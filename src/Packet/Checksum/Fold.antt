-- ===== src/Packet/Checksum/Fold.antt =====
-- The arithmetic of `calculate_ip_checksum` (src/main.rs), modulo 65535.
use swifttunnel_relay.Prelude.{
  ℕ, zero, suc, ◌+◌, ◌-◌, ◌*◌, ◌/◌, ◌%◌, ◌≡◌, ◌≤◌, ◌<◌, ◌∙◌, ◌⊎◌, sym, ap, refl, [], ◌∷◌, arith,
  All, le_or_lt, inl, inr, Bytes, IsByte, be16, length, u32_mod,
}
use swifttunnel_relay.Packet.Checksum.{add_words, fold_sum, fold_fuel, calculate_ip_checksum}

-- The words of a packet, added without wrapping.
abbrev pub total_of : Bytes → ℕ
total_of [] = 0
total_of (hi ∷ []) = hi * 256
total_of (hi ∷ lo ∷ rest) = be16 hi lo + total_of rest

total_of_bound : (bs : Bytes) → All IsByte bs → total_of bs ≤ 65535 * length bs
total_of_bound [] v = omega arith
total_of_bound (hi ∷ []) v = omega arith
total_of_bound (hi ∷ lo ∷ rest) (vh, (vl, vs)) = omega (arith, total_of_bound rest vs)

add_words-total :
    (sum : ℕ) (bs : Bytes) → sum + total_of bs < u32_mod → add_words sum bs ≡ sum + total_of bs
unfolding add_words
add_words-total sum [] h = omega arith
add_words-total sum (hi ∷ []) h = omega arith
add_words-total sum (hi ∷ lo ∷ rest) h =
    let e : (sum + be16 hi lo) % u32_mod ≡ sum + be16 hi lo = omega arith in
    let next : add_words ((sum + be16 hi lo) % u32_mod) rest ≡ add_words (sum + be16 hi lo) rest =
      ap (λ s. add_words s rest) e in
    omega (arith, next, add_words-total (sum + be16 hi lo) rest (omega arith))

-- A folded sum has 16 bits, keeps the residue, and is zero for zero only.
pub record IsFolded (sum folded : ℕ) : Type 0 where
  pub rounds : ℕ
  pub residue : sum ≡ folded + rounds * 65535
  pub small : folded < 65536
  pub positive : sum ≤ folded * u32_mod

fold_small : (fuel sum : ℕ) → sum < 65536 → fold_sum fuel sum ≡ sum
unfolding fold_sum
fold_small zero sum h = refl
fold_small (suc fuel) sum h = ground arith

fold_big :
    (fuel sum : ℕ)
    → 65536 ≤ sum
    → fold_sum (suc fuel) sum ≡ fold_sum fuel (sum % 65536 + sum / 65536)
unfolding fold_sum
fold_big fuel sum h = ground arith

-- Two rounds fold every 32-bit sum.
fold_sum_lem : (fuel sum : ℕ) → sum < u32_mod → IsFolded sum (fold_sum (suc (suc fuel)) sum)
fold_sum_lem fuel sum h = elim (le_or_lt 65536 sum) [
  | inr small ↦
      rw (fold_small (suc (suc fuel)) sum small)
        (record { rounds = 0; residue = omega arith; small = small; positive = omega arith })
  | inl big ↦
      let next = sum % 65536 + sum / 65536 in
      elim (le_or_lt 65536 next) [
        | inr small ↦
            rw (fold_big (suc fuel) sum big, fold_small (suc fuel) next small)
              (record {
                rounds = sum / 65536;
                residue = omega arith;
                small = small;
                positive = omega arith;
              })
        | inl again ↦
            rw
              (
                fold_big (suc fuel) sum big,
                fold_big fuel next again,
                fold_small fuel (next % 65536 + next / 65536) (omega arith),
              )
              (record {
                rounds = sum / 65536 + next / 65536;
                residue = omega arith;
                small = omega arith;
                positive = omega arith;
              })
      ]
]

-- Two rounds of the loop are enough for every 32-bit sum: the result has 16 bits, so that the loop is
-- over, and more fuel gives the same; it is congruent to the sum modulo 65535, and zero for zero only.
pub fold_sum-enough :
    (fuel sum : ℕ)
    → sum < u32_mod
    → (fold_sum (suc (suc fuel)) sum ≡ fold_sum fold_fuel sum)
      × IsFolded sum (fold_sum fold_fuel sum)
fold_sum-enough fuel sum h = (same (le_or_lt 65536 sum), fold_sum_lem 0 sum h)
  where
    next : ℕ
    next = sum % 65536 + sum / 65536

    after : (n : ℕ) → fold_sum n (next % 65536 + next / 65536) ≡ next % 65536 + next / 65536
    after n = fold_small n (next % 65536 + next / 65536) (omega arith)

    twice : (n : ℕ) → (65536 ≤ next) ⊎ (next < 65536) → fold_sum (suc n) next ≡ fold_sum 1 next
    twice n (inl big) = fold_big n next big ∙ (after n ∙ sym (fold_big 0 next big ∙ after 0))
    twice n (inr small) = fold_small (suc n) next small ∙ sym (fold_small 1 next small)

    same : (65536 ≤ sum) ⊎ (sum < 65536) → fold_sum (suc (suc fuel)) sum ≡ fold_sum fold_fuel sum
    same (inl big) =
        fold_big (suc fuel) sum big ∙ (twice fuel (le_or_lt 65536 next) ∙ sym (fold_big 1 sum big))
    same (inr small) = fold_small (suc (suc fuel)) sum small ∙ sym (fold_small fold_fuel sum small)

-- The checksum of a header that fits 32-bit sums is the complement of the folded total.
pub checksum-IsFolded :
    (header : Bytes)
    → All IsByte header
    → length header ≤ 65536
    → (folded : ℕ) × IsFolded (total_of header) folded
      × (calculate_ip_checksum header ≡ 65535 - folded)
unfolding calculate_ip_checksum
checksum-IsFolded header v h =
    let small : total_of header < u32_mod = omega (arith, total_of_bound header v) in
    let e : add_words 0 header ≡ total_of header =
      omega (arith, add_words-total 0 header (omega (arith, small))) in
    let f = fold_sum_lem 0 (total_of header) small in
    (fold_sum fold_fuel (total_of header), f, rw e (omega (arith, f.small)))

-- Two 16-bit words of which the second is the checksum of a total add up to a total with checksum 0.
pub checksum_cancels :
    (before after : Bytes)
    → All IsByte before
    → All IsByte after
    → length before ≤ 65536
    → length after ≤ 65536
    → total_of after ≡ total_of before + calculate_ip_checksum before
    → calculate_ip_checksum after ≡ 0
checksum_cancels before after vb va hb ha e =
    let (f, fb, cb) = checksum-IsFolded before vb hb in
    let (g, ga, ca) = checksum-IsFolded after va ha in
    omega (arith, e, cb, ca, fb.residue, fb.small, ga.residue, ga.small, ga.positive)

pub checksum_u16 : (header : Bytes) → calculate_ip_checksum header ≤ 65535
unfolding calculate_ip_checksum
checksum_u16 header = omega arith
