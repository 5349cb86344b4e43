-- ===== src/Packet/Valid.antt =====
-- The well-formed packets.
use lingi1341_trtp_gr.Base.{ℕ, ◌^◌, ◌≤◌, ◌<◌, ◌≡◌, Option, none, some, List, All, length}
use lingi1341_trtp_gr.Base.Bytes.{IsByte}
use lingi1341_trtp_gr.Packet.{Pkt, max_payload_size}

-- A payload is not empty and has the length that the packet says. (NULL goes with any length.)
abbrev pub PayloadFits : Option (List ℕ) → ℕ → Type 0
PayloadFits none n = Unit {0}
PayloadFits (some bytes) n = (length bytes ≡ n) × (1 ≤ n) × All IsByte bytes

-- Each field holds a value of its C type, and the payload fits.
pub record IsValid (p : Pkt) : Type 0 where
  pub window_in : p.window < 2 ^ 5
  pub tr_in : p.tr < 2
  pub type_in : p.type < 4
  pub length_in : p.length ≤ max_payload_size
  pub seqnum_in : p.seqnum < 2 ^ 8
  pub timestamp_in : p.timestamp < 2 ^ 32
  pub crc1_in : p.crc1 < 2 ^ 32
  pub crc2_in : p.crc2 < 2 ^ 32
  pub payload_fits : PayloadFits p.payload p.length
