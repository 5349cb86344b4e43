-- ===== src/Old/Window/Tests.antt =====
-- Windows of the earlier receiver that wrap round.
use lingi1341_trtp_gr.Base.{◌+◌, ◌≡◌, ◌<◌, arith, ltb, if◌then◌else◌}
use lingi1341_trtp_gr.Old.Window.{augmente_borne, change_window}
use lingi1341_trtp_gr.Old.ConnexionList.{Connexion}
use lingi1341_trtp_gr.Old.Window.Circle.{width, width-change_window}

abbrev at_250 : Connexion
at_250 = record {
  client_addr = 7;
  fd_to_write = 4;
  closed = 0;
  taille_window = 1;
  window_min = 250;
  window_max = 250;
  head = 100;
}

width-change_window_example :
    (width (change_window 10 at_250) ≡ (if ltb 256 (250 + 10) then 10 + 1 else 10))
    × (width (record (change_window 10 at_250) {
      window_min = augmente_borne 250;
      window_max = augmente_borne (change_window 10 at_250).window_max;
    })
        ≡ width (change_window 10 at_250))
    × (augmente_borne (change_window 10 at_250).window_max < 256)
width-change_window_example =
    width-change_window 10 at_250 (omega arith) (omega arith) (omega arith) (omega arith)
