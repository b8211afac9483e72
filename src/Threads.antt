-- ===== src/Threads.antt =====
-- The threads programs: `threads/common.h`, shared by all of them, and one module for each of
-- `pubsub.cpp`, `pushpull.cpp`, `pairs.cpp` and `clientserver.cpp`.
pub mod Globals
pub mod Control
pub mod Sockets
pub mod Sending
pub mod Serving
pub mod Results
pub mod Params
pub mod Main
pub mod Schedule
pub mod Detection
pub mod ExitCode
pub mod PubSub
pub mod PushPull
pub mod Pairs
pub mod ClientServer
pub mod Delivery
pub mod SocketUse
