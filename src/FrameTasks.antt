-- ===== src/FrameTasks.antt =====
-- socket/HandleFrameTask.cpp and socket/HandleFrameTask.h: what happens to a received frame.
pub mod Network
pub mod State
pub mod Blocks
pub mod Process
pub mod Checks
pub mod Layout
pub mod Carried
pub mod Runs
pub mod Buffers
pub mod Disposal
pub mod Datagrams
