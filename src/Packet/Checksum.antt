-- ===== src/Packet/Checksum.antt =====
-- src/main.rs, `calculate_ip_checksum` (RFC 1071).
pub mod Fold
use swifttunnel_relay.Prelude.{
  ℕ, zero, suc, ◌+◌, ◌-◌, ◌*◌, ◌/◌, ◌%◌, List, [], ◌∷◌, if◌then◌else◌, eqb, Bytes, be16, u32_mod,
}

-- `sum = sum.wrapping_add(word)` for the 16-bit words, the last of which may be half a word
unfoldable pub add_words : ℕ → Bytes → ℕ
add_words sum [] = sum
add_words sum (hi ∷ []) = (sum + hi * 256) % u32_mod
add_words sum (hi ∷ lo ∷ rest) = add_words ((sum + be16 hi lo) % u32_mod) rest

-- `while sum >> 16 != 0 { sum = (sum & 0xFFFF) + (sum >> 16) }`, for as many rounds as the fuel allows
unfoldable pub fold_sum : ℕ → ℕ → ℕ
fold_sum zero sum = sum
fold_sum (suc fuel) sum =
    let folded = fold_sum fuel (sum % 65536 + sum / 65536) in
    if eqb (sum / 65536) 0 then sum else folded

-- a 32-bit sum is folded within two rounds
abbrev pub fold_fuel : ℕ
fold_fuel = 2

-- `!sum as u16`
unfoldable pub calculate_ip_checksum : Bytes → ℕ
calculate_ip_checksum header = 65535 - fold_sum fold_fuel (add_words 0 header) % 65536
