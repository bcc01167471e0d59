-- ===== src/Fragments.antt =====
-- socket/FragmentStore.h and socket/FragmentStore.cpp: the reassembly of IP fragments. The state,
-- the copies and the entry point stand in `Slots`, `Reassembly` and `Add`; the rest are proofs.
pub mod Slots
pub mod Reassembly
pub mod Add
pub mod Ids
pub mod Sort
pub mod Ownership
pub mod Invariant
pub mod Datagram
pub mod Permuted
pub mod Calls
pub mod RoundTrip
pub mod Isolation
pub mod View
pub mod Settled
pub mod Refined
