-- ===== src/Examples.antt =====
-- The theorems at concrete frames, events and sockets.
mod Configured
mod Forwarded
mod Data
mod Reassembled
mod Events
mod Frames
mod Sent
mod Ended
mod Ordered
mod Started
mod Stored
mod Interleaved
mod Mixed
