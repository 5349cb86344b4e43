-- ===== src/Packet.antt =====
-- `struct pkt`, its status codes, allocation, getters and setters (src/packet_implem.c and
-- src/packet_interface.h).
-- A `pkt_t*` that a function tests against NULL is an `Option Pkt`; any other is the packet.
pub mod Varuint
pub mod Valid
pub mod Decode
pub mod Encode
pub mod RoundTrip
mod Tests
use lingi1341_trtp_gr.Base.{
  ℕ, ◌+◌, ◌*◌, ◌/◌, ◌%◌, ◌^◌, Bool, true, false, Option, none, some, List, ltb, ◌==◌, if◌then◌else◌,
  ◌>>=◌,
}
use lingi1341_trtp_gr.Base.Memory.{load}

abbrev pub max_payload_size : ℕ
max_payload_size = 512

abbrev pub max_window_size : ℕ
max_window_size = 31

abbrev pub max_seq_num : ℕ
max_seq_num = 256

abbrev pub max_message_size : ℕ
max_message_size = 528

-- `ptypes_t`; any other `int` may be passed for one too.
abbrev pub ptype_fec : ℕ
ptype_fec = 0

abbrev pub ptype_data : ℕ
ptype_data = 1

abbrev pub ptype_ack : ℕ
ptype_ack = 2

abbrev pub ptype_nack : ℕ
ptype_nack = 3

pub data PktStatus : Type 0 where
  pkt_ok e_type e_tr e_length e_crc e_window e_seqnum e_nomem e_noheader e_unconsistent : PktStatus

abbrev pub is_ok : PktStatus → Bool
is_ok pkt_ok = true
is_ok _ = false

-- `payload` is NULL, or the bytes of the object that it points to.
pub record Pkt : Type 0 where
  pub window : ℕ
  pub tr : ℕ
  pub type : ℕ
  pub length : ℕ
  pub seqnum : ℕ
  pub timestamp : ℕ
  pub crc1 : ℕ
  pub payload : Option (List ℕ)
  pub crc2 : ℕ

-- The first byte of the structure: gcc lays the bit fields out from the lowest bit.
abbrev pub first_byte : Pkt → ℕ
first_byte p = p.window + 32 * p.tr + 64 * p.type

-- `memcpy(pkt, data, 1)`
abbrev pub set_first_byte : Pkt → ℕ → Pkt
set_first_byte p b = record p { window = b % 32; tr = b / 32 % 2; type = b / 64 % 4 }

-- What `calloc` returns.
abbrev pub zeroed : Pkt
zeroed = record {
  window = 0;
  tr = 0;
  type = 0;
  length = 0;
  seqnum = 0;
  timestamp = 0;
  crc1 = 0;
  payload = none;
  crc2 = 0;
}

-- `granted` is whether `calloc` has memory; without it `error` ends the process, which is `none`.
unfoldable pub pkt_new : Bool → Option Pkt
pkt_new granted = if granted then some zeroed else none

abbrev pub pkt_get_type : Pkt → ℕ
pkt_get_type p = p.type

abbrev pub pkt_get_tr : Pkt → ℕ
pkt_get_tr p = p.tr

abbrev pub pkt_get_window : Pkt → ℕ
pkt_get_window p = p.window

abbrev pub pkt_get_seqnum : Pkt → ℕ
pkt_get_seqnum p = p.seqnum

abbrev pub pkt_get_length : Pkt → ℕ
pkt_get_length p = p.length

abbrev pub pkt_get_timestamp : Pkt → ℕ
pkt_get_timestamp p = p.timestamp

abbrev pub pkt_get_crc1 : Pkt → ℕ
pkt_get_crc1 p = p.crc1

abbrev pub pkt_get_crc2 : Pkt → ℕ
pkt_get_crc2 p = p.crc2

abbrev pub pkt_get_payload : Pkt → Option (List ℕ)
pkt_get_payload p = p.payload

-- A setter returns its status and the packet as it leaves it.
unfoldable pub pkt_set_type : Pkt → ℕ → PktStatus × Pkt
pkt_set_type p type =
    if type == ptype_data
    then (pkt_ok, record p { type = 1 })
    else if type == ptype_ack
    then (pkt_ok, record p { type = 2 })
    else if type == ptype_nack
    then (pkt_ok, record p { type = 3 })
    else (e_type, p)

-- The bit field keeps the lowest bit of the value.
unfoldable pub pkt_set_tr : Option Pkt → ℕ → PktStatus × Option Pkt
pkt_set_tr none tr = (e_tr, none)
pkt_set_tr (some p) tr =
    if p.type == 1 then (pkt_ok, some (record p { tr = tr % 2 })) else (e_tr, some p)

unfoldable pub pkt_set_window : Option Pkt → ℕ → PktStatus × Option Pkt
pkt_set_window none window = (e_window, none)
pkt_set_window (some p) window =
    if ltb 31 window then (e_window, some p) else (pkt_ok, some (record p { window = window % 32 }))

unfoldable pub pkt_set_seqnum : Pkt → ℕ → PktStatus × Pkt
pkt_set_seqnum p seqnum = (pkt_ok, record p { seqnum = seqnum })

unfoldable pub pkt_set_length : Pkt → ℕ → PktStatus × Pkt
pkt_set_length p length =
    if ltb max_payload_size length
    then (e_length, p)
    else (pkt_ok, record p { length = length % 2 ^ 15 })

unfoldable pub pkt_set_timestamp : Pkt → ℕ → PktStatus × Pkt
pkt_set_timestamp p timestamp = (pkt_ok, record p { timestamp = timestamp })

unfoldable pub pkt_set_crc1 : Pkt → ℕ → PktStatus × Pkt
pkt_set_crc1 p crc1 = (pkt_ok, record p { crc1 = crc1 })

unfoldable pub pkt_set_crc2 : Pkt → ℕ → PktStatus × Pkt
pkt_set_crc2 p crc2 = (pkt_ok, record p { crc2 = crc2 })

-- `free(pkt->payload); pkt->payload=NULL; pkt->length=0;`, if there is a payload.
abbrev pub drop_payload : Pkt → Pkt
drop_payload p = elim p.payload [ none ↦ p | some _ ↦ record p { payload = none; length = 0 } ]

-- The copy of `length` bytes from `dat` into what `calloc` returned.
fill_payload : Bool → Pkt → List ℕ → ℕ → Option (PktStatus × Pkt)
fill_payload granted p dat length =
    if granted
    then (do
      bytes ← load dat 0 length
      some (pkt_ok, record p { payload = some bytes; length = length }))
    else some (e_nomem, record p { payload = none })

-- `none`: the copy reads past the end of `dat`.
unfoldable pub pkt_set_payload : Bool → Pkt → Option (List ℕ) → ℕ → Option (PktStatus × Pkt)
unfolding fill_payload
pkt_set_payload granted p none length =
    if ltb max_payload_size length then some (e_nomem, p) else some (pkt_ok, p)
pkt_set_payload granted p (some dat) length =
    if ltb max_payload_size length
    then some (e_nomem, p)
    else if length == 0
    then some (pkt_ok, p)
    else fill_payload granted (drop_payload p) dat length
