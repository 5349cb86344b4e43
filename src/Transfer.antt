-- ===== src/Transfer.antt =====
-- Building packets, sending and receiving them (src/packet_utils.c).
-- `sendto`, `recv`, `malloc` and `calloc` enter as what they returned.
pub mod Create
pub mod Send
pub mod EndToEnd
pub mod Text
mod Tests
use lingi1341_trtp_gr.Base.{
  ℕ, ◌+◌, ◌-◌, ◌^◌, Bool, true, false, not, Option, none, some, List, if◌then◌else◌, replicate,
  take,
}
use lingi1341_trtp_gr.Base.Int.{ℤ, pos, negsuc, ◌+ℤ◌}
use lingi1341_trtp_gr.Base.Run.{Run, fault, exit_failure, done, ◌>>=◌, or_fault}
use lingi1341_trtp_gr.Zlib.{Crc32}
use lingi1341_trtp_gr.Packet.{
  Pkt, PktStatus, is_ok, ptype_data, ptype_ack, pkt_set_type, pkt_set_tr, pkt_set_window,
  pkt_set_length, pkt_set_seqnum, pkt_set_timestamp, pkt_set_payload, pkt_get_length,
}
use lingi1341_trtp_gr.Packet.Decode.{pkt_decode}
use lingi1341_trtp_gr.Packet.Encode.{predict_header_length, pkt_encode, size_of_ssize}

-- A setter that tests its pointer, on a packet that is there.
abbrev pub at_packet : (Option Pkt → PktStatus × Option Pkt) → Pkt → PktStatus × Pkt
at_packet set p = let (s, q) = set (some p) in (s, elim q [ none ↦ p | some r ↦ r ])

-- The return value -1 or the packet that is built further.
pub data Built : Type 0 where
  refused : Pkt → Built
  built : Pkt → Built

infixl 5 ◌then_set◌
abbrev ◌then_set◌ : Built → (Pkt → PktStatus × Pkt) → Built
refused p then_set set = refused p
built p then_set set = let (s, q) = set p in if is_ok s then built q else refused q

-- The last setter reads `length` bytes of the payload: `none` if there are fewer.
unfoldable pub create_data_pkt : Bool → ℕ → ℕ → ℕ → ℕ → ℕ → Option (List ℕ) → Pkt → Option (ℤ × Pkt)
create_data_pkt granted tr window length seqnum timestamp payload packet =
    let head : Built =
      built packet
      then_set (λ p. pkt_set_type p ptype_data)
      then_set at_packet (λ p. pkt_set_tr p tr)
      then_set at_packet (λ p. pkt_set_window p window)
      then_set (λ p. pkt_set_length p length)
      then_set (λ p. pkt_set_seqnum p seqnum)
      then_set (λ p. pkt_set_timestamp p timestamp) in
    elim head [
      | refused p ↦ some (negsuc 0, p)
      | built p ↦ elim (pkt_set_payload granted p payload length) [
        | none ↦ none
        | some (s, q) ↦ some (if is_ok s then pos 1 else negsuc 0, q)
      ]
    ]

-- A refused setter ends the process.
abbrev checked : PktStatus × Pkt → Run Pkt
checked (s, p) = if is_ok s then done p else exit_failure

unfoldable pub create_ack_pkt : ℕ → ℕ → ℕ → Pkt → Run (ℤ × Pkt)
create_ack_pkt window seqnum timestamp packet = do
  p1 ← checked (pkt_set_type packet ptype_ack)
  p2 ← checked (at_packet (λ p. pkt_set_window p window) p1)
  p3 ← checked (pkt_set_length p2 0)
  p4 ← checked (pkt_set_seqnum p3 seqnum)
  p5 ← checked (pkt_set_timestamp p4 timestamp)
  done (pos 11, p5)

-- What the system gives to one call of `send_pkt`.
pub record SendResult : Type 0 where
  pub allocated : Bool
  pub sent : Bool

-- The return value and the datagram handed to `sendto`. The bytes that `malloc` returns, taken as
-- zeros, are written before they are read.
unfoldable pub send_pkt : Crc32 → SendResult → Pkt → Run (ℤ × List ℕ)
send_pkt z sys packet = elim sys.allocated [
  | false ↦ exit_failure
  | true ↦
      let len : ℕ =
        size_of_ssize
          (predict_header_length (some packet) +ℤ pos (4 + pkt_get_length packet + 4)) in
      do
        (status, o) ← or_fault (pkt_encode z packet (replicate len 0) len)
        if not (is_ok status)
            then exit_failure
            else if not sys.sent
            then exit_failure
            else done (pos 1, take o.len o.buf)
]

-- EXIT_FAILURE, as a return value.
abbrev pub failure_code : ℤ
failure_code = pos 1

-- `buf` is the array of MAX_MESSAGE_SIZE bytes as `recv` leaves it: what it received, and behind
-- that whatever was there; `len` is its result. The result is the return value and the packet.
unfoldable pub receive_pkt : Crc32 → Bool → List ℕ → ℤ → Pkt → Option (ℤ × Pkt)
receive_pkt z granted buf len packet = elim (pkt_decode z granted buf (size_of_ssize len) packet) [
  | none ↦ none
  | some (status, q) ↦ some (if not (is_ok status) then failure_code else pos 1, q)
]
