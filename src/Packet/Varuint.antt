-- ===== src/Packet/Varuint.antt =====
-- The variable-length integers of the length field (src/packet_implem.c, VARUINT).
-- A `uint8_t*` is NULL or the bytes that it points to; a fault is a read or write outside them.
pub mod RoundTrip
use lingi1341_trtp_gr.Base.{
  ℕ, ◌+◌, ◌-◌, ◌*◌, ◌/◌, ◌%◌, ◌^◌, Bool, true, false, Option, none, some, List, [], ◌∷◌, ltb, leb,
  ◌==◌, if◌then◌else◌, ◌>>=◌, get_elem?, drop,
}
use lingi1341_trtp_gr.Base.Int.{ℤ, pos, negsuc}
use lingi1341_trtp_gr.Base.Bytes.{be16}
use lingi1341_trtp_gr.Base.Memory.{load, store}

-- `(size_t) -1` is returned on NULL.
unfoldable pub varuint_len : Option (List ℕ) → Option ℕ
varuint_len none = some (2 ^ 64 - 1)
varuint_len (some dat) = do b ← get_elem? dat 0; some (if b / 2 ^ 7 == 1 then 2 else 1)

-- What `varuint_decode` leaves: -1, or the bytes read, `*retval`, and the buffer, in which the two
-- bytes of a long integer are put in host order.
pub data VaruintRead : Type 0 where
  invalid : VaruintRead
  value : (bytes_read retval : ℕ) → List ℕ → VaruintRead

read_short : List ℕ → Option VaruintRead
read_short dat = do b ← get_elem? dat 0; some (value 1 (b % 2 ^ 7) dat)

-- `ntohs` on two bytes `hi`, `lo` makes the number `hi * 256 + lo`.
read_long : List ℕ → Option VaruintRead
read_long dat = do
  hi ← get_elem? dat 0
  lo ← get_elem? dat 1
  some (value 2 ((hi * 256 + lo) % 2 ^ 15) (lo ∷ hi ∷ drop 2 dat))

-- The branches of `varuint_decode` on `nbBytes`.
read_varuint : List ℕ → ℕ → ℕ → Option VaruintRead
unfolding read_short read_long
read_varuint dat len nb_bytes =
    if ltb len nb_bytes
    then some invalid
    else if nb_bytes == 1
    then read_short dat
    else if nb_bytes == 2
    then read_long dat
    else some invalid

-- On NULL `nbBytes` is 2 ^ 64 - 1: either `len` is less, or it is neither 1 nor 2.
unfoldable pub varuint_decode : Option (List ℕ) → ℕ → Option VaruintRead
unfolding varuint_len read_varuint
varuint_decode none len = some invalid
varuint_decode (some dat) len = do n ← varuint_len (some dat); read_varuint dat len n

-- The return value, and `dat` as it is left. Bit 15 of `val` is clear behind the guard, so `|` adds.
unfoldable pub varuint_encode : ℕ → List ℕ → ℕ → Option (ℤ × List ℕ)
varuint_encode val dat len =
    if leb 0x8000 val
    then some (negsuc 0, dat)
    else if len == 1
    then (do dat' ← store dat 0 (val % 256 ∷ []); some (pos 1, dat'))
    else if len == 2
    then (do dat' ← store dat 0 (be16 (0x8000 + val)); some (pos 2, dat'))
    else some (pos len, dat)

unfoldable pub varuint_predict_len : ℕ → ℤ
varuint_predict_len val =
    if leb 0x8000 val then negsuc 0 else if leb 0x0080 val then pos 2 else pos 1
