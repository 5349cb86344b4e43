-- ===== src/Transfer/EndToEnd.antt =====
-- Packets built, sent and received.
use lingi1341_trtp_gr.Base.{
  ℕ, ◌≤◌, ◌<◌, ◌^◌, ◌≡◌, refl, arith, Bool, true, none, some, List, ◌++◌, length, take, All,
  All-take, length-take,
}
use lingi1341_trtp_gr.Base.Int.{ℤ, pos}
use lingi1341_trtp_gr.Base.Bytes.{IsByte}
use lingi1341_trtp_gr.Base.Run.{done}
use lingi1341_trtp_gr.Zlib.{Crc32}
use lingi1341_trtp_gr.Packet.{
  Pkt, ptype_data, ptype_ack, zeroed, max_window_size, max_payload_size, max_message_size,
}
use lingi1341_trtp_gr.Packet.Valid.{IsValid}
use lingi1341_trtp_gr.Packet.Encode.{size_of_ssize}
use lingi1341_trtp_gr.Packet.Encode.Layout.{encoding, header_crc, length-encoding, empty_size}
use lingi1341_trtp_gr.Packet.Varuint.RoundTrip.{varuint_size_bounds}
use lingi1341_trtp_gr.Packet.RoundTrip.Body.{decode_control, decode_data}
use lingi1341_trtp_gr.Packet.Decode.Sound.{Returns, pkt_decode-IsValid}
use lingi1341_trtp_gr.Transfer.{create_data_pkt, create_ack_pkt, send_pkt, receive_pkt}
use lingi1341_trtp_gr.Transfer.Create.{
  data_packet, ack_packet, create_data_pkt_result, create_ack_pkt_result,
}
use lingi1341_trtp_gr.Transfer.Send.{granted_send, send_pkt-encoding}

pub ack_packet-IsValid :
    (window seqnum timestamp : ℕ)
    → window ≤ max_window_size
    → seqnum < 256
    → timestamp < 2 ^ 32
    → IsValid (ack_packet window seqnum timestamp)
ack_packet-IsValid window seqnum timestamp hw hs ht = ground arith

pub data_packet-IsValid :
    (window n seqnum timestamp : ℕ) (dat : List ℕ)
    → window ≤ max_window_size
    → 1 ≤ n
    → n ≤ max_payload_size
    → n ≤ length dat
    → seqnum < 256
    → timestamp < 2 ^ 32
    → All IsByte dat
    → IsValid (data_packet 0 window n seqnum timestamp dat)
data_packet-IsValid window n seqnum timestamp dat hw lo hi room hs ht bytes =
    ground (arith, length-take n dat, All-take IsByte n dat bytes)

-- What a receiver gets of a packet whose encoding arrives in front of any other bytes.
pub received_ack :
    (z : Crc32) (p : Pkt) (junk : List ℕ) (granted : Bool)
    → IsValid p
    → p.type ≡ ptype_ack
    → p.tr ≡ 0
    → p.payload ≡ none
    → receive_pkt z granted (encoding z p ++ junk) (pos (length (encoding z p))) zeroed
      ≡ some (pos 1, record p { crc1 = header_crc z p; crc2 = 0 })
unfolding receive_pkt
received_ack z p junk granted v t whole empty = ground (
  arith,
  length-encoding z p,
  varuint_size_bounds p.length,
  decode_control z p junk granted (length (encoding z p)) v,
)

pub received_data :
    (z : Crc32) (p : Pkt) (obj junk : List ℕ)
    → IsValid p
    → p.type ≡ ptype_data
    → p.tr ≡ 0
    → p.payload ≡ some obj
    → receive_pkt z true (encoding z p ++ junk) (pos (length (encoding z p))) zeroed
      ≡ some (pos 1, record p { crc1 = header_crc z p; crc2 = z.crc32 (some obj) })
unfolding receive_pkt
received_data z p obj junk v t whole held = ground (
  arith,
  length-encoding z p,
  varuint_size_bounds p.length,
  decode_data z p obj junk (length (encoding z p)) v t whole held,
)

-- An acknowledgement with a window of at most 31 is created, sent in 11 bytes when memory and
-- `sendto` do not fail, and received with the same window, sequence number and timestamp,
-- whatever stands behind it in the receive buffer.
pub ack_arrives :
    (z : Crc32) (window seqnum timestamp : ℕ) (junk : List ℕ) (granted : Bool)
    → window ≤ max_window_size
    → seqnum < 256
    → timestamp < 2 ^ 32
    → (p q : Pkt) × (datagram : List ℕ) × (create_ack_pkt window seqnum timestamp zeroed
        ≡ done (pos 11, p))
      × (send_pkt z granted_send p ≡ done (pos 1, datagram))
      × (length datagram ≡ 11)
      × (receive_pkt z granted (datagram ++ junk) (pos (length datagram)) zeroed ≡ some (pos 1, q))
      × (q.type ≡ ptype_ack)
      × (q.window ≡ window)
      × (q.seqnum ≡ seqnum)
      × (q.timestamp ≡ timestamp)
ack_arrives z window seqnum timestamp junk granted hw hs ht =
    let p : Pkt = ack_packet window seqnum timestamp in
    let v : IsValid p = ack_packet-IsValid window seqnum timestamp hw hs ht in
    (
      p,
      record p { crc1 = header_crc z p; crc2 = 0 },
      encoding z p,
      ground (arith, create_ack_pkt_result window seqnum timestamp),
      send_pkt-encoding z p v (omega arith) refl,
      (empty_size z p refl refl).0,
      received_ack z p junk granted v refl refl refl,
      refl,
      refl,
      refl,
      refl,
    )

-- A data packet of 1 to 512 bytes, with a window of at most 31, is created and sent when memory
-- and `sendto` do not fail, and received, whatever stands behind it in the receive buffer, with
-- the same window, sequence number, timestamp and payload.
pub data_arrives :
    (z : Crc32) (window n seqnum timestamp : ℕ) (dat junk : List ℕ)
    → window ≤ max_window_size
    → 1 ≤ n
    → n ≤ max_payload_size
    → n ≤ length dat
    → seqnum < 256
    → timestamp < 2 ^ 32
    → All IsByte dat
    → (p q : Pkt) × (datagram : List ℕ) × (create_data_pkt true 0 window n seqnum timestamp
          (some dat)
          zeroed
        ≡ some (pos 1, p))
      × (send_pkt z granted_send p ≡ done (pos 1, datagram))
      × (receive_pkt z true (datagram ++ junk) (pos (length datagram)) zeroed ≡ some (pos 1, q))
      × (q.type ≡ ptype_data)
      × (q.window ≡ window)
      × (q.seqnum ≡ seqnum)
      × (q.timestamp ≡ timestamp)
      × (q.payload ≡ some (take n dat))
data_arrives z window n seqnum timestamp dat junk hw lo hi room hs ht bytes =
    let p : Pkt = data_packet 0 window n seqnum timestamp dat in
    let v : IsValid p =
      data_packet-IsValid window n seqnum timestamp dat hw lo hi room hs ht bytes in
    let held : p.payload ≡ some (take n dat) = ground arith in
    (
      p,
      record p { crc1 = header_crc z p; crc2 = z.crc32 (some (take n dat)) },
      encoding z p,
      ground (arith, create_data_pkt_result true 0 window n seqnum timestamp dat room),
      send_pkt-encoding z p v (omega arith) refl,
      received_data z p (take n dat) junk v refl refl held,
      refl,
      refl,
      refl,
      refl,
      held,
    )

-- Whatever arrives in a receive buffer of at least 528 bytes, even a datagram that `pkt_decode`
-- refuses, `receive_pkt` into a valid packet with no payload returns 1 and leaves a valid packet:
-- EXIT_FAILURE is 1 too, so that its caller, which tests for -1, never sees an error.
pub receive_pkt-succeeds :
    (z : Crc32) (granted : Bool) (buf : List ℕ) (len : ℤ) (p : Pkt)
    → max_message_size ≤ length buf
    → All IsByte buf
    → IsValid p
    → p.payload ≡ none
    → Returns (λ r. (r.0 ≡ pos 1) × IsValid r.1) (receive_pkt z granted buf len p)
unfolding receive_pkt
receive_pkt-succeeds z granted buf len p room bytes v empty =
    ground (arith, pkt_decode-IsValid z granted buf bytes (size_of_ssize len) p room v empty)
