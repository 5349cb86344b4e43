-- ===== src/Sender/Unfinished.antt =====
-- The end of the sender's loop (src/sender.c).
use lingi1341_trtp_gr.Base.{ℕ, ◌≡◌, Bool, true, false, List, [], ◌∷◌, ltb, Bool-cases, inl, inr}
use lingi1341_trtp_gr.Base.Leaves.{Leaves, Leaves-after}
use lingi1341_trtp_gr.Base.Run.{Run, fault}
use lingi1341_trtp_gr.Zlib.{Crc32}
use lingi1341_trtp_gr.Sender.{Sender, Resize, Turn, turn, selective_repeat_sender}

-- Fewer than ten packets were made.
abbrev pub IsUnfinished : Sender → Type 0
IsUnfinished s = ltb s.k 10 ≡ true

-- The loop's test, with a fault behind the loop.
Leaves-while :
    {A : Type 0} (Q : A → Type 0) (going : Bool) (body : Run A)
    → Leaves Q body
    → Leaves Q (elim going [ false ↦ fault | true ↦ body ])
Leaves-while Q true body h = h
Leaves-while Q false body h = tt

-- The loop is never left.
pub sender-IsUnfinished :
    (z : Crc32) (resize_buffer : Resize) (free_receiver : ℕ) (turns : List Turn) (s : Sender)
    → Leaves IsUnfinished (selective_repeat_sender z resize_buffer free_receiver turns s)
unfolding selective_repeat_sender
sender-IsUnfinished z resize_buffer free_receiver [] s = elim (Bool-cases (ltb s.k 10)) [
  | inl going ↦ rw (going) going
  | inr over ↦ rw (over) tt
]
sender-IsUnfinished z resize_buffer free_receiver (sys ∷ later) s =
    Leaves-while IsUnfinished (ltb s.k 10) _ (
      Leaves-after IsUnfinished (turn z resize_buffer free_receiver sys s)
        (λ s1. selective_repeat_sender z resize_buffer free_receiver later s1)
        (sender-IsUnfinished z resize_buffer free_receiver later))
