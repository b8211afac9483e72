-- ===== src/Monitor.antt =====
-- The socket monitors: `3186/monitor.cpp`, `reconnect/monitor.cpp` and `connect/monitor.cpp`, and
-- `connectMonitor` of `reconnect/connect.cpp`.
pub mod Events
pub mod Frames
pub mod Decoding
pub mod Lifecycle
pub mod Connect
pub mod Copies
