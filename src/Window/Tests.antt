-- ===== src/Window/Tests.antt =====
-- Windows that wrap and that do not.
use lingi1341_trtp_gr.Base.{◌+◌, ◌-◌, ◌%◌, ◌≤◌, ◌≡◌, ◌↔◌, refl, arith, true, false}
use lingi1341_trtp_gr.Window.{is_in_window}
use lingi1341_trtp_gr.Window.Circular.{is_in_window_iff}

wrapped :
    (is_in_window 255 254 0 ≡ true) × (is_in_window 0 254 0 ≡ true) × (is_in_window 1 254 0 ≡ false)
unfolding is_in_window
wrapped = (refl, refl, refl)

is_in_window_iff_example :
    (is_in_window 255 254 0 ≡ true) ↔ ((255 + 256 - 254) % 256 ≤ (0 + 256 - 254) % 256)
is_in_window_iff_example = is_in_window_iff 255 254 0 (omega arith) (omega arith) (omega arith)
