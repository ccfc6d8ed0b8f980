-- ===== src/DestPolicy/Nets/Sets.antt =====
-- A set of prefixes and the prefixes that it was made from
-- (src/dest_policy.rs, `NetSet::new` and `contains`).
use swifttunnel_relay.Prelude.{
  ℕ, suc, ◌-◌, ◌<◌, ◌≡◌, refl, ap, ◌∙◌, inl, inr, Bool, true, false, ◌&&◌, ◌||◌, List, [], ◌∷◌,
  ◌++◌, some, arith, All, any, u32_mod, leb, Bool-cases, if◌then◌else◌,
}
use mathlib.Core.List.{append_assoc}
use swifttunnel_relay.Addr.{Ipv4Addr, to_u32}
use swifttunnel_relay.DestPolicy.Nets.{
  Net, net_contains, covers, key_le, insert_sorted, sort_by_key, last, keep_loop, net_set_new,
  partition_point, net_set_contains, search,
}
use swifttunnel_relay.DestPolicy.Nets.Prefixes.{
  IsPrefix, contains_iff, covers-nested, uncovered-disjoint,
}

-- the reference: some prefix contains the address
abbrev pub any_contains : List Net → ℕ → Bool
any_contains nets ip = any (λ net. net_contains net ip) nets

-- A prefix of IPv4, as the parser makes them.
abbrev pub IsNet : Net → Type 0
IsNet net = IsPrefix net × (net.base < u32_mod)

abbrev Sorted : List Net → Type 0
Sorted [] = Unit {0}
Sorted (n ∷ ns) = All (λ m. key_le n m ≡ true) ns × Sorted ns

key_le_trans : (a b c : Net) → key_le a b ≡ true → key_le b c ≡ true → key_le a c ≡ true
unfolding key_le
key_le_trans a b c h k = ground arith

key_le_total : (a b : Net) → key_le a b ≡ false → key_le b a ≡ true
unfolding key_le
key_le_total a b h = ground arith

All-key_le :
    (a b : Net) (ns : List Net)
    → key_le a b ≡ true
    → All (λ m. key_le b m ≡ true) ns
    → All (λ m. key_le a m ≡ true) ns
All-key_le a b [] h k = tt
All-key_le a b (n ∷ ns) h k = (key_le_trans a b n h k.0, All-key_le a b ns h k.1)

insert_sorted-All {κ} :
    (P : Net → Type κ) (n : Net) (ns : List Net) → P n → All P ns → All P (insert_sorted n ns)
unfolding insert_sorted
insert_sorted-All P n [] p ps = (p, tt)
insert_sorted-All P n (m ∷ ns) p ps = elim (Bool-cases (key_le n m)) [
  | inl e ↦ rw e (p, ps)
  | inr e ↦ rw e (ps.0, insert_sorted-All P n ns p ps.1)
]

insert_sorted-Sorted : (n : Net) (ns : List Net) → Sorted ns → Sorted (insert_sorted n ns)
unfolding insert_sorted
insert_sorted-Sorted n [] s = (tt, tt)
insert_sorted-Sorted n (m ∷ ns) s = elim (Bool-cases (key_le n m)) [
  | inl e ↦ rw e ((e, All-key_le n m ns e s.0), s)
  | inr e ↦ rw e (
    insert_sorted-All (λ x. key_le m x ≡ true) n ns (key_le_total n m e) s.0,
    insert_sorted-Sorted n ns s.1,
  )
]

sort-Sorted : (ns : List Net) → Sorted (sort_by_key ns)
unfolding sort_by_key
sort-Sorted [] = tt
sort-Sorted (n ∷ ns) = insert_sorted-Sorted n (sort_by_key ns) (sort-Sorted ns)

sort-All {κ} : (P : Net → Type κ) (ns : List Net) → All P ns → All P (sort_by_key ns)
unfolding sort_by_key
sort-All P [] h = tt
sort-All P (n ∷ ns) h = insert_sorted-All P n (sort_by_key ns) h.0 (sort-All P ns h.1)

any-insert_sorted :
    (n : Net) (ns : List Net) (ip : ℕ)
    → any_contains (insert_sorted n ns) ip ≡ (net_contains n ip || any_contains ns ip)
unfolding insert_sorted
any-insert_sorted n [] ip = refl
any-insert_sorted n (m ∷ ns) ip = ground (arith, any-insert_sorted n ns ip)

any-sort : (ns : List Net) (ip : ℕ) → any_contains (sort_by_key ns) ip ≡ any_contains ns ip
unfolding sort_by_key
any-sort [] ip = refl
any-sort (n ∷ ns) ip = ground (arith, any-insert_sorted n (sort_by_key ns) ip, any-sort ns ip)

-- The sweep from a prefix that has been kept.
sweep : Net → List Net → List Net
sweep l [] = l ∷ []
sweep l (n ∷ ns) =
    let skip = sweep l ns in let next = sweep n ns in if covers l n then skip else l ∷ next

last-append : (xs : List Net) (l : Net) → last (xs ++ (l ∷ [])) ≡ some l
unfolding last
last-append [] l = refl
last-append (x ∷ []) l = refl
last-append (x ∷ y ∷ xs) l = last-append (y ∷ xs) l

keep_loop-sweep :
    (kept : List Net) (l : Net) (ns : List Net)
    → keep_loop (kept ++ (l ∷ [])) ns ≡ kept ++ sweep l ns
unfolding keep_loop sweep
keep_loop-sweep kept l [] = refl
keep_loop-sweep kept l (n ∷ ns) = elim (Bool-cases (covers l n)) [
  | inl e ↦ rw (last-append kept l, e) (keep_loop-sweep kept l ns)
  | inr e ↦
      rw (last-append kept l, e)
        (keep_loop-sweep (kept ++ (l ∷ [])) n ns ∙ append_assoc kept (l ∷ []) (sweep n ns))
]

sweep-head : (l : Net) (ns : List Net) → (rest : List Net) × (sweep l ns ≡ l ∷ rest)
unfolding sweep
sweep-head l [] = ([], refl)
sweep-head l (n ∷ ns) = elim (Bool-cases (covers l n)) [
  | inl e ↦ rw e (sweep-head l ns)
  | inr e ↦ (sweep n ns, rw e)
]

-- Nothing sorted behind an address contains it.
any_above :
    (l : Net) (ns : List Net) (ip : ℕ)
    → ip < u32_mod
    → ip < l.base
    → All (λ m. key_le l m ≡ true) ns
    → All IsNet ns
    → any_contains ns ip ≡ false
unfolding key_le
any_above l [] ip h lt s v = refl
any_above l (n ∷ ns) ip h lt s ((p, b), v) =
    ground (arith, contains_iff n p ip h, any_above l ns ip h lt s.1 v)

search-one : (x : Net) (ip : ℕ) → search (x ∷ []) ip ≡ (leb x.base ip && net_contains x ip)
unfolding search partition_point
search-one x ip = ground arith

search-nil : (ip : ℕ) → search [] ip ≡ false
unfolding search partition_point
search-nil ip = refl

search-step :
    (x y : Net) (ys : List Net) (ip : ℕ)
    → search (x ∷ y ∷ ys) ip ≡ (
        if leb x.base ip
        then (if leb y.base ip then search (y ∷ ys) ip else net_contains x ip)
        else false)
unfolding search partition_point
search-step x y ys ip =
    let k = partition_point ip ys in
    let outer : suc (suc k) - 1 ≡ suc k = omega arith in
    let inner : suc k - 1 ≡ k = omega arith in
    elim (Bool-cases (leb x.base ip)) [
      | inr a ↦ rw a
      | inl a ↦ elim (Bool-cases (leb y.base ip)) [
        | inl b ↦ rw (a, b, outer, inner) (ground arith)
        | inr b ↦ rw (a, b)
      ]
    ]

-- The kept prefixes are searched as the whole list is.
search-sweep :
    (l : Net) (ns : List Net) (ip : ℕ)
    → ip < u32_mod
    → IsNet l
    → All IsNet ns
    → Sorted (l ∷ ns)
    → search (sweep l ns) ip ≡ any_contains (l ∷ ns) ip
unfolding sweep
search-sweep l [] ip h (p, b) v s = ground (arith, search-one l ip, contains_iff l p ip h)
search-sweep l (n ∷ ns) ip h (p, b) ((q, c), v) s = elim (Bool-cases (covers l n)) [
  | inl e ↦
      let ih = search-sweep l ns ip h (p, b) v (s.0.1, s.1.1) in
      let nested = covers-nested l n p q e c in
      rw e (ground (arith, ih, contains_iff l p ip h, contains_iff n q ip h, nested))
  | inr e ↦
      let ih = search-sweep n ns ip h (q, c) v s.1 in
      let apart = uncovered-disjoint l n p q s.0.0 e c in
      let (rest, shape) = sweep-head n ns in
      let stepped = ap (λ xs. search (l ∷ xs) ip) shape ∙ search-step l n rest ip in
      let same = ap (λ xs. search xs ip) shape in
      rw e (
        ground (
          arith,
          ih,
          stepped,
          same,
          contains_iff l p ip h,
          contains_iff n q ip h,
          apart,
          any_above n ns ip h,
        ))
]

swept :
    (ns : List Net) (ip : ℕ)
    → ip < u32_mod
    → All IsNet ns
    → Sorted ns
    → search (keep_loop [] ns) ip ≡ any_contains ns ip
unfolding keep_loop last
swept [] ip h v s = search-nil ip
swept (n ∷ ns) ip h v s =
    ap (λ xs. search xs ip) (keep_loop-sweep [] n ns) ∙ search-sweep n ns ip h v.0 v.1 s

-- A set that is built from prefixes in any order, with duplicates and prefixes inside others, contains
-- an address exactly when one of the prefixes does.
pub net_set_lem :
    (nets : List Net) (addr : Ipv4Addr)
    → All IsNet nets
    → to_u32 addr < u32_mod
    → net_set_contains (net_set_new nets) addr ≡ any_contains nets (to_u32 addr)
unfolding net_set_contains net_set_new
net_set_lem nets addr v h =
    swept (sort_by_key nets) (to_u32 addr) h (sort-All IsNet nets v) (sort-Sorted nets)
    ∙ any-sort nets (to_u32 addr)
