-- ===== src/Pool.antt =====
-- tst/tst.h and tst/tst.cpp: the epoll thread pool.
pub mod Types
pub mod Transfer
pub mod State
pub mod Connections
pub mod Work
pub mod Main
pub mod Turns
pub mod Shutdown
pub mod System
pub mod Setup
pub mod Lifecycle
