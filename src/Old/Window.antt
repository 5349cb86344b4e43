-- ===== src/Old/Window.antt =====
-- The window of the earlier receiver (old/src/read_write_loop.c): the test of a sequence number,
-- the step of a bound, and the change of its size. The `int`s are natural
-- numbers.
pub mod Circle
mod Tests
use lingi1341_trtp_gr.Base.{
  ℕ, ◌+◌, ◌-◌, Bool, true, false, not, ◌&&◌, ◌||◌, ltb, leb, ◌==◌, if◌then◌else◌,
}
use lingi1341_trtp_gr.Old.ConnexionList.{Connexion}

-- The result is 1 or 0, and the test `0<=seqnum` always passes.
unfoldable pub is_in_window : ℕ → ℕ → ℕ → ℕ
is_in_window seqnum window_min window_max =
    if leb window_min window_max
    then if leb window_min seqnum && leb seqnum window_max then 1 else 0
    else if (leb window_min seqnum && leb seqnum 255) || leb seqnum window_max
    then 1
    else 0

unfoldable pub augmente_borne : ℕ → ℕ
augmente_borne borne = if borne == 255 then 0 else borne + 1

-- The window that the sender announces, when it is a new one and not 0.
unfoldable pub change_window : ℕ → Connexion → Connexion
change_window window_sender c =
    if not (window_sender == c.taille_window) && not (window_sender == 0)
    then (let high : ℕ = c.window_min + window_sender - 1 in
        record c {
          taille_window = window_sender;
          window_max = if ltb 255 high then high - 255 else high;
        })
    else c
