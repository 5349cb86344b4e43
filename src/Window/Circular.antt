-- ===== src/Window/Circular.antt =====
-- The window as an arc of the circle of sequence numbers.
use lingi1341_trtp_gr.Base.{ℕ, ◌+◌, ◌-◌, ◌%◌, ◌≤◌, ◌<◌, ◌≡◌, ◌≢◌, ◌↔◌, ◌⊎◌, arith, true}
use lingi1341_trtp_gr.Window.{is_in_window}

-- For a sequence number and bounds below 256, `is_in_window` holds exactly when, counted round
-- the circle from the low bound, the number comes no later than the high bound.
pub is_in_window_iff :
    (s low high : ℕ)
    → s < 256
    → low < 256
    → high < 256
    → (is_in_window s low high ≡ true) ↔ ((s + 256 - low) % 256 ≤ (high + 256 - low) % 256)
unfolding is_in_window
is_in_window_iff s low high hs hl hh = ground arith

-- Sliding a window that is not the whole circle by one, with bounds and sequence numbers below
-- 256: the low end leaves it, the number after the high end enters it, and nothing else changes.
pub is_in_window_slide :
    (s low high : ℕ)
    → s < 256
    → low < 256
    → high < 256
    → (high + 1) % 256 ≢ low
    → (is_in_window s ((low + 1) % 256) ((high + 1) % 256) ≡ true)
      ↔ ((is_in_window s low high ≡ true) × (s ≢ low) ⊎ (s ≡ (high + 1) % 256))
unfolding is_in_window
is_in_window_slide s low high hs hl hh open_end = (λ h. ground arith, λ h. ground arith)
