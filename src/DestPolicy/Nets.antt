-- ===== src/DestPolicy/Nets.antt =====
-- src/dest_policy.rs, `Net` and `NetSet`: prefixes as a first address and a mask, and a set of them
-- that one binary search answers. Addresses are u32.
pub mod Prefixes
pub mod Parse
pub mod Sets
use Prim.Native.Nat.{bit_and}
use swifttunnel_relay.Prelude.{
  ℕ, zero, suc, ◌+◌, ◌-◌, ◌*◌, ◌%◌, ◌^◌, Bool, true, false, ◌&&◌, ◌||◌, not, List, [], ◌∷◌, ◌++◌,
  Option, none, some, if◌then◌else◌, ltb, leb, eqb, get_elem?, length, u32_mod, is_some_and,
}
use swifttunnel_relay.Addr.{Ipv4Addr, to_u32}

pub record Net : Type 0 where
  pub base : ℕ
  pub mask : ℕ

-- `MIN_PREFIX_LEN`
abbrev pub min_prefix_len : ℕ
min_prefix_len = 8

-- `Net::parse` after the address and the length have been read: `u32::MAX << (32 - len)`
unfoldable pub net_of : Ipv4Addr → ℕ → Option Net
net_of addr len =
    if not (leb min_prefix_len len && leb len 32)
    then none
    else (let mask = (u32_mod - 1) * 2 ^ (32 - len) % u32_mod in
        some (record { base = bit_and (to_u32 addr) mask; mask = mask }))

unfoldable pub net_contains : Net → ℕ → Bool
net_contains net ip = eqb (bit_and ip net.mask) net.base

unfoldable pub covers : Net → Net → Bool
covers net other = leb net.mask other.mask && net_contains net other.base

-- the order of the sort's key, (base, mask)
unfoldable pub key_le : Net → Net → Bool
key_le a b = ltb a.base b.base || (eqb a.base b.base && leb a.mask b.mask)

unfoldable pub insert_sorted : Net → List Net → List Net
insert_sorted net [] = net ∷ []
insert_sorted net (n ∷ ns) =
    let rest = insert_sorted net ns in if key_le net n then net ∷ n ∷ ns else n ∷ rest

-- `sort_unstable_by_key`
unfoldable pub sort_by_key : List Net → List Net
sort_by_key [] = []
sort_by_key (n ∷ ns) = insert_sorted n (sort_by_key ns)

unfoldable pub last : List Net → Option Net
last [] = none
last (n ∷ []) = some n
last (n ∷ m ∷ ns) = last (m ∷ ns)

-- the loop of `NetSet::new`
unfoldable pub keep_loop : List Net → List Net → List Net
keep_loop kept [] = kept
keep_loop kept (net ∷ nets) =
    keep_loop (if is_some_and (last kept) (λ l. covers l net) then kept else kept ++ (net ∷ []))
      nets

unfoldable pub net_set_new : List Net → List Net
net_set_new nets = keep_loop [] (sort_by_key nets)

-- `partition_point(|net| net.base <= ip)` of a partitioned slice
unfoldable pub partition_point : ℕ → List Net → ℕ
partition_point ip [] = 0
partition_point ip (net ∷ nets) =
    let rest = partition_point ip nets in if leb net.base ip then suc rest else 0

-- `NetSet::contains` at a u32. The index is in range, since `after` is at most the length.
unfoldable pub search : List Net → ℕ → Bool
search nets ip =
    let after = partition_point ip nets in
    ltb 0 after && is_some_and (get_elem? nets (after - 1)) (λ net. net_contains net ip)

unfoldable pub net_set_contains : List Net → Ipv4Addr → Bool
net_set_contains nets addr = search nets (to_u32 addr)
