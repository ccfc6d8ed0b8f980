-- ===== src/Examples.antt =====
-- The theorems at concrete inputs, a file for each part of the relay.
pub mod Tickets
pub mod Addresses
pub mod Rates
pub mod Policies
pub mod Packets
pub mod Accounts
pub mod Buffers
pub mod Datagrams
pub mod Threads
