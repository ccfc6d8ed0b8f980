-- ===== src/Prelude/Maps.antt =====
-- `HashMap` and `DashMap` as association lists: `get`, `insert`, `remove`, `retain`, `len`.
use Prim.Native.Nat.{◌+◌, ◌≤◌, ◌<◌}
use mathlib.Core.Path.{◌≡◌, refl}
use mathlib.Core.Bool.{Bool, false}
use mathlib.Core.Option.{Option, none, some}
use mathlib.Core.List.{List, [], ◌∷◌}
use native.Mathlib.Omega.{arith}
use swifttunnel_relay.Prelude.Tests.{if◌then◌else◌, is_some}
use swifttunnel_relay.Prelude.Lists.{length}
use swifttunnel_relay.Prelude.Keys.{Keyed, ◌==◌}

abbrev pub Assoc {ℓ} : Type ℓ → Type ℓ → Type ℓ
Assoc K V = List (K × V)

module _ {ℓ} {K V : Type ℓ} ⦃e : Keyed K⦄ where
  unfoldable pub lookup : K → Assoc K V → Option V
  lookup k [] = none
  lookup k ((j, v) ∷ m) = if j == k then some v else lookup k m

  unfoldable pub remove : K → Assoc K V → Assoc K V
  remove k [] = []
  remove k ((j, v) ∷ m) = let rest = remove k m in if j == k then rest else (j, v) ∷ rest

  unfoldable pub insert : K → V → Assoc K V → Assoc K V
  insert k v [] = (k, v) ∷ []
  insert k v ((j, w) ∷ m) = let rest = insert k v m in if j == k then (k, v) ∷ m else (j, w) ∷ rest

  unfoldable pub retain : (K → V → Bool) → Assoc K V → Assoc K V
  retain p [] = []
  retain p ((j, v) ∷ m) = let rest = retain p m in if p j v then (j, v) ∷ rest else rest

  abbrev pub contains_key : K → Assoc K V → Bool
  contains_key k m = is_some (lookup k m)

  -- No key has two entries.
  abbrev pub Distinct : Assoc K V → Type ℓ
  Distinct [] = Unit {ℓ}
  Distinct ((k, v) ∷ m) = (lookup k m ≡ none) × Distinct m

  pub lookup-insert :
      (put asked : K) (value : V) (m : Assoc K V)
      → lookup asked (insert put value m) ≡ (if put == asked then some value else lookup asked m)
  unfolding insert lookup
  lookup-insert put asked value [] = refl
  lookup-insert put asked value ((here, w) ∷ rest) = ground (
    arith,
    e.matches_iff here put,
    e.matches_iff here asked,
    e.matches_iff put asked,
    lookup-insert put asked value rest,
  )

  pub lookup-remove :
      (k j : K) (m : Assoc K V) → lookup j (remove k m) ≡ (if k == j then none else lookup j m)
  unfolding lookup remove
  lookup-remove k j [] = ground arith
  lookup-remove k j ((i, w) ∷ m) =
      ground (arith, e.matches_iff i k, e.matches_iff i j, e.matches_iff k j, lookup-remove k j m)

  pub lookup-insert_self : (k : K) (v : V) (m : Assoc K V) → lookup k (insert k v m) ≡ some v
  lookup-insert_self k v m = ground (arith, lookup-insert k k v m, e.matches_iff k k)

  abbrev pub keep_if : (K → V → Bool) → K → Option V → Option V
  keep_if p k none = none
  keep_if p k (some v) = if p k v then some v else none

  lookup-retain-none :
      (p : K → V → Bool) (k : K) (m : Assoc K V) → lookup k m ≡ none → lookup k (retain p m) ≡ none
  unfolding lookup retain
  lookup-retain-none p k [] h = refl
  lookup-retain-none p k ((j, v) ∷ m) h = ground (arith, lookup-retain-none p k m)

  pub lookup-retain :
      (p : K → V → Bool) (k : K) (m : Assoc K V)
      → Distinct m
      → lookup k (retain p m) ≡ keep_if p k (lookup k m)
  unfolding lookup retain
  lookup-retain p k [] d = refl
  lookup-retain p k ((j, v) ∷ m) d =
      ground (arith, e.matches_iff j k, lookup-retain p k m d.1, lookup-retain-none p j m d.0)

  pub insert-Distinct : (k : K) (v : V) (m : Assoc K V) → Distinct m → Distinct (insert k v m)
  unfolding insert lookup
  insert-Distinct k v [] d = ground arith
  insert-Distinct k v ((j, w) ∷ m) d = ground (
    arith,
    e.matches_iff j k,
    e.matches_iff k j,
    insert-Distinct k v m d.1,
    lookup-insert k j v m,
  )

  pub remove-Distinct : (k : K) (m : Assoc K V) → Distinct m → Distinct (remove k m)
  unfolding remove
  remove-Distinct k [] d = d
  remove-Distinct k ((j, w) ∷ m) d =
      ground (arith, e.matches_iff j k, remove-Distinct k m d.1, lookup-remove k j m)

  pub retain-Distinct : (p : K → V → Bool) (m : Assoc K V) → Distinct m → Distinct (retain p m)
  unfolding retain
  retain-Distinct p [] d = d
  retain-Distinct p ((j, w) ∷ m) d =
      ground (arith, retain-Distinct p m d.1, lookup-retain-none p j m d.0)

  pub length-insert :
      (k : K) (v : V) (m : Assoc K V)
      → length (insert k v m) ≡ (if contains_key k m then length m else length m + 1)
  unfolding insert lookup
  length-insert k v [] = omega arith
  length-insert k v ((j, w) ∷ m) = ground (arith, length-insert k v m)

  remove-absent : (k : K) (m : Assoc K V) → lookup k m ≡ none → remove k m ≡ m
  unfolding remove lookup
  remove-absent k [] h = refl
  remove-absent k ((j, w) ∷ m) h = ground (arith, remove-absent k m)

  pub length-remove :
      (k : K) (m : Assoc K V)
      → Distinct m
      → length m ≡ (if contains_key k m then length (remove k m) + 1 else length (remove k m))
  unfolding remove lookup
  length-remove k [] d = omega arith
  length-remove k ((j, w) ∷ m) d =
      ground (arith, e.matches_iff j k, length-remove k m d.1, remove-absent j m d.0)

  pub length-retain-le : (p : K → V → Bool) (m : Assoc K V) → length (retain p m) ≤ length m
  unfolding retain
  length-retain-le p [] = omega arith
  length-retain-le p ((j, w) ∷ m) = ground (arith, length-retain-le p m)

  pub length-retain_lt :
      (p : K → V → Bool) (k : K) (v : V) (m : Assoc K V)
      → lookup k m ≡ some v
      → p k v ≡ false
      → length (retain p m) < length m
  unfolding retain lookup
  length-retain_lt p k v [] h r = ground arith
  length-retain_lt p k v ((j, w) ∷ m) h r =
      ground (arith, e.matches_iff j k, length-retain_lt p k v m, length-retain-le p m)
