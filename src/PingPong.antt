-- ===== src/PingPong.antt =====
-- `pingpong/ping.cpp` and `pingpong/pong.cpp`: ping sends a request and waits for two answers, and pong
-- answers each request by an "ack" and a "response". Both make the same sockets, but that ping tests
-- their pointers and sleeps, and both end alike.
pub mod Sockets
pub mod Ping
pub mod Pong
pub mod Session
pub mod EndToEnd
