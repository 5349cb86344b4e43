-- ===== src/Old/Packet.antt =====
-- The packets of the earlier receiver (old/src/packet_implem.c): allocation, getters and setters.
-- The structure and its status codes are those of src/packet_implem.c.
pub mod Varuint
pub mod Codec
pub mod Agree
mod Tests
use lingi1341_trtp_gr.Base.{
  ℕ, ◌%◌, ◌^◌, Bool, true, false, ◌||◌, Option, none, some, List, ltb, ◌==◌, if◌then◌else◌, ◌>>=◌,
}
use lingi1341_trtp_gr.Base.Memory.{load}
use lingi1341_trtp_gr.Packet.{
  Pkt, PktStatus, pkt_ok, e_type, e_tr, e_length, e_window, e_nomem, ptype_data, ptype_ack,
  ptype_nack, max_payload_size, zeroed,
}

-- NULL when `calloc` has no memory; its caller does not test for it.
unfoldable pub pkt_new : Bool → Option Pkt
pkt_new granted = if granted then some zeroed else none

abbrev pub pkt_get_type : Pkt → ℕ
pkt_get_type p = p.type

abbrev pub pkt_get_tr : Pkt → ℕ
pkt_get_tr p = p.tr

abbrev pub pkt_get_window : Pkt → ℕ
pkt_get_window p = p.window

abbrev pub pkt_get_seqnum : Pkt → ℕ
pkt_get_seqnum p = p.seqnum

abbrev pub pkt_get_length : Pkt → ℕ
pkt_get_length p = p.length

abbrev pub pkt_get_timestamp : Pkt → ℕ
pkt_get_timestamp p = p.timestamp

abbrev pub pkt_get_crc1 : Pkt → ℕ
pkt_get_crc1 p = p.crc1

abbrev pub pkt_get_crc2 : Pkt → ℕ
pkt_get_crc2 p = p.crc2

abbrev pub pkt_get_payload : Pkt → Option (List ℕ)
pkt_get_payload p = p.payload

unfoldable pub pkt_set_type : Pkt → ℕ → PktStatus × Pkt
pkt_set_type p type =
    if type == ptype_data
    then (pkt_ok, record p { type = 1 })
    else if type == ptype_ack
    then (pkt_ok, record p { type = 2 })
    else if type == ptype_nack
    then (pkt_ok, record p { type = 3 })
    else (e_type, p)

unfoldable pub pkt_set_tr : Option Pkt → ℕ → PktStatus × Option Pkt
pkt_set_tr none tr = (e_tr, none)
pkt_set_tr (some p) tr =
    if p.type == 1 then (pkt_ok, some (record p { tr = tr % 2 })) else (e_tr, some p)

unfoldable pub pkt_set_window : Option Pkt → ℕ → PktStatus × Option Pkt
pkt_set_window none window = (e_window, none)
pkt_set_window (some p) window =
    if ltb 31 window
    then (e_window, some p)
    else (pkt_ok, some (record p { window = window % 2 ^ 5 }))

unfoldable pub pkt_set_seqnum : Pkt → ℕ → PktStatus × Pkt
pkt_set_seqnum p seqnum = (pkt_ok, record p { seqnum = seqnum })

unfoldable pub pkt_set_length : Pkt → ℕ → PktStatus × Pkt
pkt_set_length p length =
    if ltb max_payload_size length
    then (e_length, p)
    else (pkt_ok, record p { length = length % 2 ^ 15 })

unfoldable pub pkt_set_timestamp : Pkt → ℕ → PktStatus × Pkt
pkt_set_timestamp p timestamp = (pkt_ok, record p { timestamp = timestamp })

unfoldable pub pkt_set_crc1 : Pkt → ℕ → PktStatus × Pkt
pkt_set_crc1 p crc1 = (pkt_ok, record p { crc1 = crc1 })

unfoldable pub pkt_set_crc2 : Pkt → ℕ → PktStatus × Pkt
pkt_set_crc2 p crc2 = (pkt_ok, record p { crc2 = crc2 })

-- A payload that is there is freed, and the length set to 0, before `calloc`; `none` is a copy past
-- the end of `dat`.
unfoldable pub pkt_set_payload : Bool → Pkt → Option (List ℕ) → ℕ → Option (PktStatus × Pkt)
pkt_set_payload granted p none length =
    if ltb max_payload_size length then some (e_nomem, p) else some (pkt_ok, p)
pkt_set_payload granted p (some dat) length =
    if ltb max_payload_size length
    then some (e_nomem, p)
    else if length == 0
    then some (pkt_ok, p)
    else if granted
    then (do
      bytes ← load dat 0 length
      some (pkt_ok, record p { payload = some bytes; length = length }))
    else elim p.payload [
      | none ↦ some (e_nomem, p)
      | some _ ↦ some (e_nomem, record p { payload = none; length = 0 })
    ]
