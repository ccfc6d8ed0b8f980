-- ===== src/Datapath/Pool.antt =====
-- src/datapath_v2.rs, `BufferPool`: the free list of buffer indices, a bounded first-in first-out
-- channel. The bytes of the buffers are not part of the state.
pub mod Ownership
use swifttunnel_relay.Prelude.{
  ℕ, zero, suc, List, [], ◌∷◌, ◌++◌, Option, none, some, if◌then◌else◌, ltb, length,
}

pub record BufferPool : Type 0 where
  pub slots : ℕ
  pub free : List ℕ

-- `for i in 0..slots`, from a first index
unfoldable pub indices : ℕ → ℕ → List ℕ
indices i zero = []
indices i (suc n) = i ∷ indices (suc i) n

unfoldable pub new : ℕ → BufferPool
new slots = record { slots = slots; free = indices 0 slots }

unfoldable pub try_acquire : BufferPool → BufferPool × Option ℕ
try_acquire pool = elim pool.free [
  | [] ↦ (pool, none)
  | idx ∷ rest ↦ (record pool { free = rest }, some idx)
]

-- A send on a full channel blocks, `none`; one on a disconnected channel is an error, but the pool
-- holds the receiver.
unfoldable pub release : BufferPool → ℕ → Option BufferPool
release pool idx =
    if ltb (length pool.free) pool.slots
    then some (record pool { free = pool.free ++ (idx ∷ []) })
    else none
