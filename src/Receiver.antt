-- ===== src/Receiver.antt =====
-- The receiver: `selective_repeat_receiver` of src/receiver.c.
pub mod State
pub mod Steps
pub mod Loop
pub mod InOrder
pub mod Rounds
pub mod Transfer
pub mod Kept
pub mod Faults
pub mod Disturbed
pub mod Standing
pub mod Reachable
mod Tests
