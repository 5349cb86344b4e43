-- ===== src/Window.antt =====
-- `is_in_window` of src/packet_utils.c. Both callers pass numbers of 0 to 255, so the `int`s are
-- natural numbers, and the test `0 <= seqnum` always passes.
pub mod Circular
mod Tests
use lingi1341_trtp_gr.Base.{ℕ, Bool, ◌&&◌, ◌||◌, ltb, leb, if◌then◌else◌}
use lingi1341_trtp_gr.Packet.{max_seq_num}

unfoldable pub is_in_window : ℕ → ℕ → ℕ → Bool
is_in_window seqnum low_window high_window =
    if leb low_window high_window
    then leb low_window seqnum && leb seqnum high_window
    else (leb low_window seqnum && ltb seqnum max_seq_num)
      || (leb 0 seqnum && leb seqnum high_window)
