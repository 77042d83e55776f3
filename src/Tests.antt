-- ===== src/Tests.antt =====
-- The theorems at concrete inputs.
mod Net
mod Streams
mod Workers
mod Rounds
mod Lifetime
mod Clients
mod Old
mod OldPeers
mod Echo
mod Endings
mod Pools
mod Threads
