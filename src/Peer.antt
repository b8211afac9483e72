-- ===== src/Peer.antt =====
-- The discovery protocol of the peer programs: `3186/peer.cpp` and `reconnect/peer.cpp`.
pub mod Table
pub mod Issue3186
pub mod Reconnect
pub mod Proxy
pub mod Network
