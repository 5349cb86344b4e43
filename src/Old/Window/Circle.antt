-- ===== src/Old/Window/Circle.antt =====
-- The earlier receiver's window on the circle of 256 (old/src/read_write_loop.c).
use lingi1341_trtp_gr.Base.{ℕ, ◌+◌, ◌-◌, ◌%◌, ◌≤◌, ◌<◌, ◌≡◌, ◌≢◌, arith, ltb, if◌then◌else◌}
use lingi1341_trtp_gr.Window
use lingi1341_trtp_gr.Old.Window.{is_in_window, augmente_borne, change_window}
use lingi1341_trtp_gr.Old.ConnexionList.{Connexion}

-- The two receivers' tests agree: for a sequence number and bounds below 256, the earlier one
-- returns 1 when the later one holds, and else 0.
pub is_in_window_agrees :
    (s low high : ℕ)
    → s < 256
    → low < 256
    → high < 256
    → is_in_window s low high ≡ (if Window.is_in_window s low high then 1 else 0)
unfolding is_in_window Window.is_in_window
is_in_window_agrees s low high hs hl hh = ground arith

-- How many sequence numbers there are from one bound to the other, both counted.
abbrev pub width : Connexion → ℕ
width c = (c.window_max + 256 - c.window_min) % 256 + 1

-- A new size from 1 to 31, different from the size before, and a low bound below 256 make a
-- window of that many sequence numbers when it ends at 255 or before; a window that wraps round
-- is one number too wide. Moving both bounds on by one keeps that width, and the high bound is
-- then below 256.
pub width-change_window :
    (n : ℕ) (c : Connexion)
    → 1 ≤ n
    → n ≤ 31
    → n ≢ c.taille_window
    → c.window_min < 256
    → (width (change_window n c) ≡ (if ltb 256 (c.window_min + n) then n + 1 else n))
      × (width (record (change_window n c) {
        window_min = augmente_borne c.window_min;
        window_max = augmente_borne (change_window n c).window_max;
      })
          ≡ width (change_window n c))
      × (augmente_borne (change_window n c).window_max < 256)
unfolding change_window augmente_borne
width-change_window n c lo hi new low = ground arith
