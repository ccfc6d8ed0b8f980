-- ===== src/DestPolicy.antt =====
-- src/dest_policy.rs: which networks the relay forwards client traffic to. `Nets` is `Net` and `NetSet`,
-- `Permits` the policy and its counters.
pub mod Nets
pub mod Permits
