-- ===== src/Examples/Buffers.antt =====
-- A pool of two buffers (src/datapath_v2.rs, `BufferPool`).
use swifttunnel_relay.Prelude.{ℕ, length, ◌≡◌, ◌<◌, refl, List, [], ◌∷◌, none, some}
use swifttunnel_relay.Datapath.Pool.{BufferPool, indices, new, try_acquire, release}
use swifttunnel_relay.Datapath.Pool.Ownership.{
  Reachable, start, acquired, count, acquire_exclusive, acquire-none, release-some,
}

abbrev pool : List ℕ → BufferPool
pool free = record { slots = 2; free = free }

first : try_acquire (new 2) ≡ (pool (1 ∷ []), some 0)
unfolding try_acquire new indices
first = refl

second : try_acquire (pool (1 ∷ [])) ≡ (pool [], some 1)
unfolding try_acquire
second = refl

third : try_acquire (pool []) ≡ (pool [], none)
unfolding try_acquire
third = refl

one_out : Reachable 2 (pool (1 ∷ [])) (0 ∷ [])
one_out = acquired (new 2) (pool (1 ∷ [])) [] 0 start first

both_out : Reachable 2 (pool []) (1 ∷ 0 ∷ [])
both_out = acquired (pool (1 ∷ [])) (pool []) (0 ∷ []) 1 one_out second

acquire_exclusive_example : (1 < 2) × (count 1 (0 ∷ []) ≡ 0)
acquire_exclusive_example = acquire_exclusive 2 (pool (1 ∷ [])) (pool []) (0 ∷ []) 1 one_out second

acquire-none_example : length {A = ℕ} (1 ∷ 0 ∷ []) ≡ 2
acquire-none_example = acquire-none 2 (pool []) (pool []) (1 ∷ 0 ∷ []) both_out third

release-some_example : (q : BufferPool) × (release (pool []) 0 ≡ some q)
release-some_example = release-some 2 (pool []) (1 ∷ []) [] 0 both_out
