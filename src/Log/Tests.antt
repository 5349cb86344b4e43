-- ===== src/Log/Tests.antt =====
-- A dump of a datagram in front of another byte.
use lingi1341_trtp_gr.Base.{◌+◌, ◌/◌, ◌≡◌, some, List, [], ◌∷◌, ◌++◌, length, All}
use lingi1341_trtp_gr.Base.Run.{done}
use lingi1341_trtp_gr.Log.{Row, dump}
use lingi1341_trtp_gr.Log.Rows.{all_hex, all_characters, IsRow, dump_shows}
use lingi1341_trtp_gr.Samples.{hi_bytes}

dump_shows_example :
    (rows : List Row) × (dump (hi_bytes ++ (9 ∷ [])) (length hi_bytes) ≡ done (some rows))
    × (all_hex rows ≡ hi_bytes)
    × (all_characters rows ≡ hi_bytes)
    × All IsRow rows
    × (length rows ≡ (length hi_bytes + 15) / 16)
dump_shows_example = dump_shows hi_bytes (9 ∷ [])
