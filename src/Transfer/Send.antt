-- ===== src/Transfer/Send.antt =====
-- From a packet to a datagram and back.
use lingi1341_trtp_gr.Base.{
  ℕ, ◌+◌, ◌≡◌, ◌≢◌, refl, arith, true, length, drop, replicate, length-replicate, take-append,
}
use lingi1341_trtp_gr.Base.Int.{pos, +ℤ_pos}
use lingi1341_trtp_gr.Base.Run.{done}
use lingi1341_trtp_gr.Zlib.{Crc32}
use lingi1341_trtp_gr.Packet.{Pkt}
use lingi1341_trtp_gr.Packet.Valid.{IsValid}
use lingi1341_trtp_gr.Packet.Varuint.RoundTrip.{varuint_size, varuint_size_bounds}
use lingi1341_trtp_gr.Packet.Encode.Layout.{encoding, encode_result, space}
use lingi1341_trtp_gr.Packet.Encode.Refine.{pkt_encode-result, predict_header_length-size}
use lingi1341_trtp_gr.Transfer.{SendResult, send_pkt}

abbrev pub granted_send : SendResult
granted_send = record { allocated = true; sent = true }

-- When `malloc` and `sendto` succeed, `send_pkt` of a valid packet whose type is not 0 and whose
-- TR is 0 returns 1 and hands the encoding of the packet to `sendto`, and no byte more.
pub send_pkt-encoding :
    (z : Crc32) (p : Pkt)
    → IsValid p
    → p.type ≢ 0
    → p.tr ≡ 0
    → send_pkt z granted_send p ≡ done (pos 1, encoding z p)
unfolding send_pkt encode_result space
send_pkt-encoding z p v known whole =
    let len : ℕ = 6 + varuint_size p.length + (4 + p.length + 4) in
    ground (
      arith,
      predict_header_length-size p (omega (arith, v.length_in)),
      +ℤ_pos (6 + varuint_size p.length) (4 + p.length + 4),
      v.length_in,
      varuint_size_bounds p.length,
      length-replicate {A = ℕ} len 0,
      pkt_encode-result z p (replicate len 0) len v,
      take-append (length (encoding z p)) (encoding z p)
          (drop (length (encoding z p)) (replicate len 0)) refl,
    )
