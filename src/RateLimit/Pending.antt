-- ===== src/RateLimit/Pending.antt =====
-- src/main.rs, `PendingAuthLimiter`: a fixed table of windows that new sources share before their
-- ticket is verified. `hash_one` is std's randomised hash, a parameter; a bucket's mutex is never
-- poisoned, since nothing panics while it is held.
use swifttunnel_relay.Prelude.{
  ℕ, ◌%◌, ◌<◌, ◌≡◌, Bool, List, Option, none, some, arith, length, get_elem?, set, replicate,
  length-set, get_elem?-of_lt, get_elem?-set_self, get_elem?-set_ne, ◌⊎◌, inl, inr, eq_or_ne,
}
use swifttunnel_relay.Addr.{IpAddr}
use swifttunnel_relay.RateLimit.Window.{SourceRateState, new_session}
use swifttunnel_relay.RateLimit.Window

abbrev pub bucket_count : ℕ
bucket_count = 4096

unfoldable pub new : ℕ → List SourceRateState
new now = replicate bucket_count (Window.new now)

-- The panic of an index out of bounds is `none`.
module _ (hash_one : IpAddr → ℕ) where
  pub index : List SourceRateState → IpAddr → ℕ
  index buckets ip = hash_one ip % length buckets

  unfoldable pub allow : List SourceRateState → IpAddr → ℕ → Option (List SourceRateState × Bool)
  unfolding index
  allow buckets ip now = elim (get_elem? buckets (index buckets ip)) [
    | none ↦ none
    | some bucket ↦
        let (bucket', ok) = Window.allow bucket new_session now in
        some (set buckets (index buckets ip) bucket', ok)
  ]

  index-lt :
      (buckets : List SourceRateState) (ip : IpAddr)
      → 0 < length buckets
      → index buckets ip < length buckets
  unfolding index
  index-lt buckets ip h = omega arith

  -- Whatever addresses a flood invents, a call finds a bucket, counts the event there alone and
  -- leaves the table at its size.
  pub allow_bounded :
      (buckets : List SourceRateState) (ip : IpAddr) (now : ℕ)
      → 0 < length buckets
      → (bucket : SourceRateState) × (get_elem? buckets (index buckets ip) ≡ some bucket)
        × (buckets' : List SourceRateState) × (allow buckets ip now
            ≡ some (buckets', (Window.allow bucket new_session now).1))
        × (length buckets' ≡ length buckets)
        × (get_elem? buckets' (index buckets ip) ≡ some (Window.allow bucket new_session now).0)
        × ((i : ℕ) → (index buckets ip ≡ i) ⊎ (get_elem? buckets' i ≡ get_elem? buckets i))
  unfolding allow
  allow_bounded buckets ip now h =
      let i = index buckets ip in
      let (bucket, found) = get_elem?-of_lt buckets i (index-lt buckets ip h) in
      let bucket' = (Window.allow bucket new_session now).0 in
      (
        bucket,
        found,
        set buckets i bucket',
        rw (found, allow),
        length-set buckets i bucket',
        get_elem?-set_self buckets i bucket' (index-lt buckets ip h),
        λ j. elim (eq_or_ne i j) [
          | inl e ↦ inl e
          | inr ne ↦ inr (get_elem?-set_ne buckets bucket' ne)
        ],
      )
