-- ===== src/Driver/Sent.antt =====
-- What one packet of the driver's tests is, and the rounds of the receiver that it arrives in.
use lingi1341_trtp_gr.Base.{
  ℕ, ◌+◌, ◌%◌, ◌≤◌, ◌≡◌, refl, arith, true, List, [], ◌∷◌, ◌++◌, length, length-append, All,
}
use lingi1341_trtp_gr.Base.Bytes.{IsByte}
use lingi1341_trtp_gr.Base.Run.{done}
use lingi1341_trtp_gr.Zlib.{Crc32}
use lingi1341_trtp_gr.Packet.{Pkt, pkt_new}
use lingi1341_trtp_gr.Packet.Valid.{IsValid}
use lingi1341_trtp_gr.Packet.Encode.Layout.{encoding}
use lingi1341_trtp_gr.Transfer.Create.{data_packet, create_data_pkt_result}
use lingi1341_trtp_gr.Transfer.Send.{granted_send, send_pkt-encoding}
use lingi1341_trtp_gr.Transfer.EndToEnd.{data_packet-IsValid}
use lingi1341_trtp_gr.Driver.{Sending, send_text}

-- Every call succeeds.
abbrev pub all_sent : Sending
all_sent = record { granted = true; copied = true; send = granted_send }

-- The packet with the text and its final zero.
abbrev pub text_packet : List ℕ → ℕ → Pkt
text_packet text seqnum = data_packet 0 3 (length text + 1) (seqnum % 256) 0 (text ++ (0 ∷ []))

-- A text of bytes that fits into a payload with its final zero.
pub record IsText (text : List ℕ) : Type 0 where
  pub bytes : All IsByte (text ++ (0 ∷ []))
  pub fits : length text ≤ 511

pub text_packet-IsValid :
    (text : List ℕ) (seqnum : ℕ) → IsText text → IsValid (text_packet text seqnum)
text_packet-IsValid text seqnum t =
    data_packet-IsValid 3 (length text + 1) (seqnum % 256) 0 (text ++ (0 ∷ [])) (omega arith)
      (omega arith) (omega (arith, t.fits)) (omega (arith, length-append text (0 ∷ [])))
      (omega arith) (omega arith) t.bytes

pub send_text-sends :
    (z : Crc32) (text : List ℕ) (seqnum : ℕ)
    → IsText text
    → send_text z all_sent text seqnum ≡ done (encoding z (text_packet text seqnum))
unfolding send_text pkt_new
send_text-sends z text seqnum t =
    let n : ℕ = length text + 1 in
    ground (
      arith,
      t.fits,
      create_data_pkt_result true 0 3 n (seqnum % 256) 0 (text ++ (0 ∷ []))
          (omega (arith, length-append text (0 ∷ []))),
      send_pkt-encoding z (text_packet text seqnum) (text_packet-IsValid text seqnum t)
          (omega arith) refl,
    )
