-- ===== src/Datapath/Pool/Ownership.antt =====
-- Who holds a buffer of the pool, through every order of acquiring and releasing
-- (src/datapath_v2.rs, `BufferPool`).
use swifttunnel_relay.Prelude.{
  ℕ, zero, suc, ◌+◌, ◌≡◌, ◌<◌, ◌⊎◌, inl, inr, ap, refl, arith, List, [], ◌∷◌, ◌++◌, none, some,
  if◌then◌else◌, ltb, leb, eqb, ◌&&◌, length, length-append,
}
use swifttunnel_relay.Datapath.Pool.{BufferPool, indices, new, try_acquire, release}

-- The pools that the threads can reach, each with the indices that are checked out.
pub data Reachable (slots : ℕ) : BufferPool → List ℕ → Type 0 where
  start : Reachable slots (new slots) []
  acquired :
      (p q : BufferPool) (held : List ℕ) (i : ℕ)
      → Reachable slots p held
      → try_acquire p ≡ (q, some i)
      → Reachable slots q (i ∷ held)
  released :
      (p q : BufferPool) (before after : List ℕ) (i : ℕ)
      → Reachable slots p (before ++ (i ∷ after))
      → release p i ≡ some q
      → Reachable slots q (before ++ after)

-- How often an index stands in a list.
unfoldable pub count : ℕ → List ℕ → ℕ
count i [] = 0
count i (j ∷ js) = (if eqb j i then 1 else 0) + count i js

count-append : (i : ℕ) (js ks : List ℕ) → count i (js ++ ks) ≡ count i js + count i ks
unfolding count
count-append i [] ks = omega arith
count-append i (j ∷ js) ks = omega (arith, count-append i js ks)

count-indices : (i a n : ℕ) → count i (indices a n) ≡ (if leb a i && ltb i (a + n) then 1 else 0)
unfolding count indices
count-indices i a zero = ground arith
count-indices i a (suc n) = ground (arith, count-indices i (suc a) n)

length-indices : (a n : ℕ) → length (indices a n) ≡ n
unfolding indices
length-indices a zero = refl
length-indices a (suc n) = omega (arith, length-indices (suc a) n)

-- Every index below the number of slots stands once, in the free list or among those held.
record IsOwned (slots : ℕ) (p : BufferPool) (held : List ℕ) : Type 0 where
  size : p.slots ≡ slots
  once : (i : ℕ) → count i p.free + count i held ≡ (if ltb i slots then 1 else 0)
  whole : length p.free + length held ≡ slots

first_or_none : (xs : List ℕ) → (xs ≡ []) ⊎ ((x : ℕ) × (rest : List ℕ) × (xs ≡ x ∷ rest))
first_or_none [] = inl refl
first_or_none (x ∷ rest) = inr (x, rest, refl)

acquire_lem :
    (p q : BufferPool) (i : ℕ)
    → try_acquire p ≡ (q, some i)
    → (p.free ≡ i ∷ q.free) × (p.slots ≡ q.slots)
unfolding try_acquire
acquire_lem p q i h = elim (first_or_none p.free) [
  | inl e ↦ ground (arith, e, h)
  | inr (x, rest, e) ↦ (ground (arith, e, h), ground (arith, e, h))
]

release_lem :
    (p q : BufferPool) (i : ℕ)
    → release p i ≡ some q
    → (q.free ≡ p.free ++ (i ∷ [])) × (p.slots ≡ q.slots)
unfolding release
release_lem p q i h = (ground (arith, h), ground (arith, h))

reach : (slots : ℕ) (p : BufferPool) (held : List ℕ) → Reachable slots p held → IsOwned slots p held
unfolding count new
reach slots _ _ start = record {
  size = refl;
  once = λ i. ground (arith, count-indices i 0 slots);
  whole = omega (arith, length-indices 0 slots);
}
reach slots _ _ (acquired p q held i r e) =
    let o = reach slots p held r in
    let (f, s) = acquire_lem p q i e in
    record {
      size = omega (arith, o.size, s);
      once = λ j. omega (arith, o.once j, ap (count j) f);
      whole = omega (arith, o.whole, ap (λ l. length l) f);
    }
reach slots _ _ (released p q before after i r e) =
    let o = reach slots p (before ++ (i ∷ after)) r in
    let (f, s) = release_lem p q i e in
    record {
      size = omega (arith, o.size, s);
      once = λ j. omega (
        arith,
        o.once j,
        ap (count j) f,
        count-append j p.free (i ∷ []),
        count-append j before (i ∷ after),
        count-append j before after,
      );
      whole = omega (
        arith,
        o.whole,
        ap (λ l. length l) f,
        length-append p.free (i ∷ []),
        length-append before (i ∷ after),
        length-append before after,
      );
    }

-- A buffer is never handed out twice: an index that is acquired is one of the pool's, and no other
-- thread holds it.
pub acquire_exclusive :
    (slots : ℕ) (p q : BufferPool) (held : List ℕ) (i : ℕ)
    → Reachable slots p held
    → try_acquire p ≡ (q, some i)
    → (i < slots) × (count i held ≡ 0)
unfolding count
acquire_exclusive slots p q held i r e =
    let o = reach slots p held r in
    let (f, _) = acquire_lem p q i e in ground (arith, o.once i, ap (count i) f)

-- No buffer leaks: acquiring fails only when as many indices are held as the pool has slots.
pub acquire-none :
    (slots : ℕ) (p q : BufferPool) (held : List ℕ)
    → Reachable slots p held
    → try_acquire p ≡ (q, none)
    → length held ≡ slots
unfolding try_acquire
acquire-none slots p q held r e = elim (first_or_none p.free) [
  | inl empty ↦ let o = reach slots p held r in omega (arith, o.whole, ap (λ l. length l) empty)
  | inr (x, rest, full) ↦ ground (arith, full, e)
]

-- A thread that gives back an index that it holds never blocks.
pub release-some :
    (slots : ℕ) (p : BufferPool) (before after : List ℕ) (i : ℕ)
    → Reachable slots p (before ++ (i ∷ after))
    → (q : BufferPool) × (release p i ≡ some q)
unfolding release
release-some slots p before after i r =
    let o = reach slots p (before ++ (i ∷ after)) r in
    let room : length p.free < p.slots =
      omega (arith, o.size, o.whole, length-append before (i ∷ after)) in
    (record p { free = p.free ++ (i ∷ []) }, ground (arith, room))
