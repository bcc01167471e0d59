-- ===== src/EventBuilding.antt =====
-- eventBuilding/: the building of events from fragments, the two trigger levels and the storage.
pub mod Library
pub mod State
pub mod Storage
pub mod L2Builder
pub mod L1Builder
pub mod QueueReceiver
pub mod Verdicts
pub mod Steps
pub mod Kept
pub mod Accounting
pub mod Justified
pub mod Decisions
pub mod Times
pub mod Resets
pub mod Getters
pub mod Bounds
pub mod Protocol
