-- ===== src/Receiver/Rounds.antt =====
-- Rounds that receive the packets of a transfer.
use lingi1341_trtp_gr.Base.{
  ℕ, suc, ◌%◌, ◌<◌, ◌^◌, ◌≡◌, ◌≢◌, refl, arith, true, none, some, List, [], ◌∷◌, ◌++◌, length,
  append-nil, Option,
}
use lingi1341_trtp_gr.Base.Int.{pos}
use lingi1341_trtp_gr.Base.Bytes.{of_be32}
use lingi1341_trtp_gr.Base.Run.{done}
use lingi1341_trtp_gr.Zlib.{Crc32}
use lingi1341_trtp_gr.Packet.{Pkt, ptype_data, pkt_new, zeroed}
use lingi1341_trtp_gr.Packet.Valid.{IsValid}
use lingi1341_trtp_gr.Packet.Encode.Layout.{encoding, header_crc, empty_size}
use lingi1341_trtp_gr.Packet.RoundTrip.Body.{decode_last}
use lingi1341_trtp_gr.Transfer.{receive_pkt}
use lingi1341_trtp_gr.Transfer.Create.{ack_packet}
use lingi1341_trtp_gr.Transfer.Send.{granted_send}
use lingi1341_trtp_gr.Transfer.EndToEnd.{received_data}
use lingi1341_trtp_gr.Receiver.State.{Receiver, Round, print_data}
use lingi1341_trtp_gr.Receiver.Loop.{allocate, round}
use lingi1341_trtp_gr.Receiver.InOrder.{
  Synced, Smooth, IsWhole, content, delivered, handle_expected, delivered-Synced,
}

-- The first file with the default format: the next number, and its name, "0".
abbrev pub first_file : ℕ × Option (List ℕ)
first_file = (1, some (48 ∷ []))

-- A round in which every call succeeds and the datagram of `p` arrives, in front of `junk`.
abbrev pub message_round : Crc32 → Pkt → List ℕ → Round
message_round z p junk = record {
  peeked = true;
  packet_granted = true;
  payload_granted = true;
  bytes = encoding z p ++ junk;
  len = pos (length (encoding z p));
  created = done first_file;
  null_shown = true;
  ack_granted = true;
  ack_sent = granted_send;
}

-- A data packet with a payload, as a sender makes it.
pub record IsData (p : Pkt) : Type 0 where
  pub valid : IsValid p
  pub data_type : p.type ≡ ptype_data
  pub whole : p.tr ≡ 0
  pub has_payload : (obj : List ℕ) × (p.payload ≡ some obj)

-- The payload holds a zero byte, so that `print_data` ends on it.
abbrev pub IsShown : Pkt → Type 0
IsShown p = print_data true p ≡ true

-- The CRCs are not looked at.
pub read-IsShown :
    (p : Pkt) (crc1 crc2 : ℕ) → IsShown p → IsShown (record p { crc1 = crc1; crc2 = crc2 })
unfolding print_data
read-IsShown p crc1 crc2 shown = shown

-- The packet that ends a transfer.
pub record IsLast (p : Pkt) : Type 0 where
  pub valid : IsValid p
  pub data_type : p.type ≡ ptype_data
  pub whole : p.tr ≡ 0
  pub no_payload : p.payload ≡ none
  pub empty : p.length ≡ 0

-- In such a round every system call succeeds.
pub message_round-Smooth : (z : Crc32) (p : Pkt) (junk : List ℕ) → Smooth (message_round z p junk)
message_round-Smooth z p junk = record {
  peeks = refl;
  has_packet = refl;
  has_payload = refl;
  named = (1, 48 ∷ []);
  opens = refl;
  shows = refl;
  has_ack = refl;
  sends = refl;
}

-- A round that receives the next expected packet `q`.
round_expected :
    (z : Crc32) (sys : Round) (n : ℕ) (out : List ℕ) (q : Pkt) (r : Receiver)
    → Smooth sys
    → receive_pkt z sys.payload_granted sys.bytes sys.len zeroed ≡ some (pos 1, q)
    → IsWhole q
    → Synced n out r
    → q.type ≡ ptype_data
    → q.seqnum ≡ n % 256
    → q.timestamp < 2 ^ 32
    → print_data sys.null_shown q ≡ true
    → round z sys r ≡ done (delivered z n out r.store.next q (allocate q r))
unfolding round pkt_new allocate
round_expected z sys n out q r smooth arrives whole s t seq ht shown = ground (
  arith,
  handle_expected z sys n out r.store.next q (allocate q r) smooth whole in_step t seq ht found,
)
  where
    found : (allocate q r).store.cell r.store.next ≡ some q
    found = ground arith

    in_step : Synced n out (allocate q r)
    in_step = ground (arith, s)

-- One packet of a transfer.
pub round_data :
    (z : Crc32) (p : Pkt) (junk : List ℕ) (n : ℕ) (out : List ℕ) (r : Receiver)
    → IsData p
    → IsShown p
    → p.seqnum ≡ n % 256
    → Synced n out r
    → (r' : Receiver) × (round z (message_round z p junk) r ≡ done r')
      × Synced (suc n) (out ++ content p) r'
      × (r'.acks ≡ r.acks ++ (encoding z (ack_packet 3 (n % 256) p.timestamp) ∷ []))
round_data z p junk n out r d shown seq s =
    let (obj, held) = d.has_payload in
    let v : IsValid p = d.valid in
    let q : Pkt = record p { crc1 = header_crc z p; crc2 = z.crc32 (some obj) } in
    let same : length (content q) ≡ q.length = ground (arith, v.payload_fits) in
    let nonempty : q.length ≢ 0 = ground (arith, v.payload_fits) in
    let in_step : Synced n out (allocate q r) = unfold allocate in ground (arith, s) in
    (
      delivered z n out r.store.next q (allocate q r),
      round_expected z (message_round z p junk) n out q r (message_round-Smooth z p junk)
          (received_data z p obj junk v d.data_type d.whole held) (record { holds = same }) s
          d.data_type seq v.timestamp_in (read-IsShown p q.crc1 q.crc2 shown),
      delivered-Synced z n out r.store.next q (allocate q r) in_step nonempty,
      unfold allocate in refl,
    )

-- The packet that ends a transfer is accepted whatever four bytes its second CRC is read from.
pub round_last :
    (z : Crc32) (p : Pkt) (word tail : List ℕ) (n : ℕ) (out : List ℕ) (r : Receiver)
    → IsLast p
    → length word ≡ 4
    → p.seqnum ≡ n % 256
    → Synced n out r
    → (r' : Receiver) × (round z (message_round z p (word ++ tail)) r ≡ done r')
      × (r'.ended ≡ true)
      × (r'.file ≡ some out)
      × (r'.acks ≡ r.acks ++ (encoding z (ack_packet 3 (n % 256) p.timestamp) ∷ []))
round_last z p word tail n out r l four seq s =
    let v : IsValid p = l.valid in
    let q : Pkt = record p { crc1 = header_crc z p; crc2 = of_be32 word } in
    (
      delivered z n out r.store.next q (allocate q r),
      round_expected z (message_round z p (word ++ tail)) n out q r
          (message_round-Smooth z p (word ++ tail)) arrives
          (record { holds = ground (arith, l.empty, l.no_payload) }) s l.data_type seq
          v.timestamp_in (unfold print_data in ground (arith, l.no_payload)),
      ground (arith, l.empty),
      ground (arith, l.no_payload, append-nil out),
      unfold allocate in refl,
    )
  where
    arrives :
        receive_pkt z true (encoding z p ++ (word ++ tail)) (pos (length (encoding z p))) zeroed
        ≡ some (pos 1, record p { crc1 = header_crc z p; crc2 = of_be32 word })
    arrives =
        unfold receive_pkt in
        ground (
          arith,
          empty_size z p l.no_payload l.empty,
          decode_last z p word tail true (length (encoding z p)) l.valid l.data_type l.whole
              l.no_payload l.empty four,
        )
