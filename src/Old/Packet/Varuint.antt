-- ===== src/Old/Packet/Varuint.antt =====
-- The length field of the earlier receiver's packets (old/src/packet_implem.c).
use lingi1341_trtp_gr.Base.{
  ℕ, ◌+◌, ◌-◌, ◌*◌, ◌/◌, ◌%◌, ◌^◌, Option, none, some, List, [], ◌∷◌, ltb, leb, ◌==◌, if◌then◌else◌,
  ◌>>=◌, get_elem?, drop,
}
use lingi1341_trtp_gr.Base.Int.{ℤ, pos, negsuc, ◌+ℤ◌}
use lingi1341_trtp_gr.Base.Bytes.{be16}
use lingi1341_trtp_gr.Base.Memory.{store}
use lingi1341_trtp_gr.Packet.{Pkt}
use lingi1341_trtp_gr.Packet.Varuint.{VaruintRead, invalid, value}

-- `(size_t) -1` is returned on NULL.
unfoldable pub varuint_len : Option (List ℕ) → Option ℕ
varuint_len none = some (2 ^ 64 - 1)
varuint_len (some dat) = do b ← get_elem? dat 0; some (if b / 2 ^ 7 == 1 then 2 else 1)

unfoldable pub varuint_decode : Option (List ℕ) → ℕ → Option VaruintRead
varuint_decode none len = some invalid
varuint_decode (some dat) len = do
  nb_bytes ← varuint_len (some dat)
  if ltb len nb_bytes
      then some invalid
      else if nb_bytes == 1
      then (do b ← get_elem? dat 0; some (value nb_bytes (b % 2 ^ 7) dat))
      else if nb_bytes == 2
      then (do
        hi ← get_elem? dat 0
        lo ← get_elem? dat 1
        some (value nb_bytes ((hi * 256 + lo) % 2 ^ 15) (lo ∷ hi ∷ drop 2 dat)))
      else some invalid

unfoldable pub varuint_encode : ℕ → List ℕ → ℕ → Option (ℤ × List ℕ)
varuint_encode val dat len =
    if leb 0x8000 val
    then some (negsuc 0, dat)
    else if len == 1
    then (do written ← store dat 0 (val % 256 ∷ []); some (pos len, written))
    else if len == 2
    then (do written ← store dat 0 (be16 (0x8000 + val)); some (pos len, written))
    else some (pos len, dat)

unfoldable pub varuint_predict_len : ℕ → ℤ
varuint_predict_len val =
    if leb 0x8000 val then negsuc 0 else if leb 0x0080 val then pos 2 else pos 1

unfoldable pub predict_header_length : Option Pkt → ℤ
predict_header_length none = negsuc 0
predict_header_length (some p) = pos 6 +ℤ varuint_predict_len p.length
