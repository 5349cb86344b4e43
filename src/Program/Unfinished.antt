-- ===== src/Program/Unfinished.antt =====
-- The sender's program, from its command line to its exit (src/sender.c).
use lingi1341_trtp_gr.Base.{ℕ, ◌≡◌, none, Option}
use lingi1341_trtp_gr.Base.Leaves.{Leaves}
use lingi1341_trtp_gr.Sender.{Sender}
use lingi1341_trtp_gr.Sender.Unfinished.{IsUnfinished}

-- The program is in its loop, with fewer than ten packets made.
abbrev pub IsInLoop : Option ℕ × Sender → Type 0
IsInLoop (status, s) = (status ≡ none) × IsUnfinished s
