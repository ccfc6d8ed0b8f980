-- ===== src/DestPolicy/Nets/Parse.antt =====
-- A prefix as it is read from a list: an address and a length (src/dest_policy.rs, `Net::parse`).
use Prim.Native.Nat.{bit_and}
use native.Mathlib.Nat.{one-le-pow}
use swifttunnel_relay.Prelude.{
  ℕ, zero, suc, ◌-◌, ◌*◌, ◌/◌, ◌%◌, ◌^◌, ◌≤◌, ◌<◌, ◌≡◌, refl, ap, ◌∙◌, inl, inr, ◌↔◌, Bool, true,
  ◌&&◌, arith, u32_mod, leb, eqb, le_or_lt, place_inj, Bool-cases, some,
}
use swifttunnel_relay.Addr.{Ipv4Addr, to_u32}
use swifttunnel_relay.DestPolicy.Nets.{Net, net_of, net_contains, min_prefix_len}
use swifttunnel_relay.DestPolicy.Nets.Prefixes.{IsPrefix, div_block, power_32, lt_of_mul, masked}

-- The mask of a prefix length, for each length that the parser takes.
abbrev mask_of : ℕ → ℕ
mask_of len = (u32_mod - 1) * 2 ^ (32 - len) % u32_mod

masks_agree : ℕ → Bool
masks_agree zero = true
masks_agree (suc n) = eqb (mask_of n) ((2 ^ n - 1) * 2 ^ (32 - n)) && masks_agree n

masks_agree_sound :
    (n len : ℕ) → masks_agree n ≡ true → len < n → mask_of len ≡ (2 ^ len - 1) * 2 ^ (32 - len)
unfolding masks_agree
masks_agree_sound zero len h lt = absurd (omega arith)
masks_agree_sound (suc n) len h lt = elim (le_or_lt n len) [
  | inl ge ↦ let same : len ≡ n = omega arith in rw same (ground (arith, h))
  | inr below ↦ masks_agree_sound n len (ground (arith, h)) below
]

mask_table : masks_agree 33 ≡ true
unfolding masks_agree
mask_table = refl

-- what `net_of` makes of an address and a length in range
net_of-some :
    (addr : Ipv4Addr) (len : ℕ) (net : Net)
    → net_of addr len ≡ some net
    → (8 ≤ len)
      × (len ≤ 32)
      × (net ≡ record { base = bit_and (to_u32 addr) (mask_of len); mask = mask_of len })
unfolding net_of
net_of-some addr len net h = elim (Bool-cases (leb min_prefix_len len && leb len 32)) [
  | inl e ↦ (ground (arith, e), ground (arith, e), ground (arith, e, h))
  | inr e ↦ absurd (ground (arith, e, h))
]

abbrev blank : ℕ → Net
blank len = record { base = 0; mask = mask_of len }

blank-IsPrefix : (len : ℕ) → len ≤ 32 → IsPrefix (blank len)
blank-IsPrefix len h = record {
  host = 32 - len;
  width = len;
  block = 0;
  sums = omega arith;
  mask_eq = masks_agree_sound 33 len mask_table (omega arith);
  base_eq = omega arith;
  fits = omega (arith, one-le-pow len 2 (omega arith));
}

masked_len :
    (len ip : ℕ)
    → len ≤ 32
    → ip < u32_mod
    → bit_and ip (mask_of len) ≡ ip / 2 ^ (32 - len) * 2 ^ (32 - len)
unfolding blank-IsPrefix
masked_len len ip h k = masked (blank len) (blank-IsPrefix len h) ip k

power_len : (len : ℕ) → len ≤ 32 → 2 ^ len * 2 ^ (32 - len) ≡ u32_mod
unfolding blank-IsPrefix
power_len len h = power_32 (blank len) (blank-IsPrefix len h)

module _ (addr : Ipv4Addr) (len : ℕ) (net : Net) (parsed : net_of addr len ≡ some net) where
  net_of-base : to_u32 addr < u32_mod → net.base ≡ to_u32 addr / 2 ^ (32 - len) * 2 ^ (32 - len)
  net_of-base h =
      let (lo, hi, e) = net_of-some addr len net parsed in
      ap (λ (n : Net). n.base) e ∙ masked_len len (to_u32 addr) hi h

  -- A prefix from a file is a block of IPv4 addresses.
  pub net_of-IsPrefix : to_u32 addr < u32_mod → IsPrefix net × (net.base < u32_mod)
  net_of-IsPrefix h =
      let (lo, hi, e) = net_of-some addr len net parsed in
      let base = net_of-base h in
      let (split, rest) =
        div_block (to_u32 addr) (2 ^ (32 - len)) (one-le-pow (32 - len) 2 (omega arith)) in
      let whole = power_len len hi in
      (
        record {
          host = 32 - len;
          width = len;
          block = to_u32 addr / 2 ^ (32 - len);
          sums = omega arith;
          mask_eq = ap (λ (n : Net). n.mask) e ∙ masks_agree_sound 33 len mask_table (omega arith);
          base_eq = base;
          fits = lt_of_mul (to_u32 addr / 2 ^ (32 - len)) (2 ^ len) (2 ^ (32 - len)) (omega arith);
        },
        omega arith,
      )

  -- It contains exactly the addresses that share the first `len` bits with the one written.
  pub net_of-contains :
      (ip : ℕ)
      → to_u32 addr < u32_mod
      → ip < u32_mod
      → (net_contains net ip ≡ true) ↔ (ip / 2 ^ (32 - len) ≡ to_u32 addr / 2 ^ (32 - len))
  unfolding net_contains
  net_of-contains ip h k =
      let (lo, hi, e) = net_of-some addr len net parsed in
      let base = net_of-base h in
      let pos = one-le-pow (32 - len) 2 (omega arith) in
      let m = ap (λ (n : Net). bit_and ip n.mask) e ∙ masked_len len ip hi k in
      (
        λ c.
            let same : ip / 2 ^ (32 - len) * 2 ^ (32 - len)
                ≡ to_u32 addr / 2 ^ (32 - len) * 2 ^ (32 - len) =
              ground (arith, c, m, base) in
            (place_inj (2 ^ (32 - len)) _ _ 0 0 pos pos (omega arith)).0,
        λ c. ground (arith, m, base, ap (λ (t : ℕ). t * 2 ^ (32 - len)) c),
      )
