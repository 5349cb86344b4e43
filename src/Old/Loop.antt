-- ===== src/Old/Loop.antt =====
-- `read_write_loop` of the earlier receiver (old/src/read_write_loop.c).
pub mod State
pub mod Serve
pub mod Reply
pub mod Pass
pub mod Received
pub mod Answer
pub mod Ending
pub mod Handling
pub mod Halting
pub mod Called
pub mod Refusing
pub mod Staying
pub mod Freed
mod Tests
