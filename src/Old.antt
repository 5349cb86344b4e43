-- ===== src/Old.antt =====
-- The earlier receiver, for several senders at once (old/src).
pub mod LinkedList
pub mod Window
pub mod ConnexionList
pub mod Packet
pub mod Loop
pub mod Socket
pub mod Program
