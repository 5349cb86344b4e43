-- ===== src/Receiver/InOrder.antt =====
-- Rounds that receive the packets of a transfer in order.
use lingi1341_trtp_gr.Base.{
  ℕ, zero, suc, ◌+◌, ◌%◌, ◌≤◌, ◌<◌, ◌^◌, ◌≡◌, ◌≢◌, refl, arith, true, false, none, some, List, [],
  ◌∷◌, ◌++◌, ◌==◌, if◌then◌else◌, length,
}
use lingi1341_trtp_gr.Base.Int.{ℤ, pos, negsuc, u8_of}
use lingi1341_trtp_gr.Base.Memory.{load_all}
use lingi1341_trtp_gr.Base.Run.{done}
use lingi1341_trtp_gr.Zlib.{Crc32}
use lingi1341_trtp_gr.Packet.{Pkt, ptype_data, pkt_new, max_window_size}
use lingi1341_trtp_gr.Packet.Valid.{IsValid}
use lingi1341_trtp_gr.Packet.Encode.Layout.{encoding}
use lingi1341_trtp_gr.Window.{is_in_window}
use lingi1341_trtp_gr.Transfer.Create.{ack_packet, create_ack_pkt_result}
use lingi1341_trtp_gr.Transfer.Send.{granted_send, send_pkt-encoding}
use lingi1341_trtp_gr.Transfer.EndToEnd.{ack_packet-IsValid}
use lingi1341_trtp_gr.Receiver.State.{
  Receiver, Round, update, window_size, one_more, rem_256, deref, pkt_del, fwrite_payload,
}
use lingi1341_trtp_gr.Receiver.Steps.{
  open_file, slide, in_sequence, flush_slot, flush_slots, acknowledge,
}
use lingi1341_trtp_gr.Receiver.Loop.{accept, handle}

-- `last_ack` after `n` packets.
abbrev pub last_of : ℕ → ℤ
last_of zero = negsuc 0
last_of (suc k) = pos (k % 256)

-- `n` packets were received in order, and `out` was written.
pub record Synced (n : ℕ) (out : List ℕ) (r : Receiver) : Type 0 where
  pub free_all : r.free ≡ pos 3
  pub low : r.window_start ≡ n % 256
  pub high : r.window_end ≡ (n + 2) % 256
  pub last : r.last_ack ≡ last_of n
  pub nothing_kept : r.buffer ≡ none ∷ none ∷ none ∷ []
  pub first : r.first_time ≡ (n == 0)
  pub file_is : r.file ≡ (if n == 0 then none else some out)
  pub out_is : n ≡ 0 → out ≡ []
  pub going : r.ended ≡ false

-- The bytes that `fwrite` writes of a packet.
abbrev pub content : Pkt → List ℕ
content p = elim p.payload [ none ↦ [] | some obj ↦ obj ]

-- Every call of the system in a round succeeds.
pub record Smooth (sys : Round) : Type 0 where
  pub peeks : sys.peeked ≡ true
  pub has_packet : sys.packet_granted ≡ true
  pub has_payload : sys.payload_granted ≡ true
  pub named : ℕ × List ℕ
  pub opens : sys.created ≡ done (named.0, some named.1)
  pub shows : sys.null_shown ≡ true
  pub has_ack : sys.ack_granted ≡ true
  pub sends : sys.ack_sent ≡ granted_send

-- `length` bytes can be read behind the payload pointer, and none behind NULL.
pub record IsWhole (p : Pkt) : Type 0 where
  pub holds : length (content p) ≡ p.length

pub fwrite_whole :
    (p : Pkt) (out : List ℕ)
    → IsWhole p
    → fwrite_payload p (some out) ≡ done (some (out ++ content p))
unfolding fwrite_payload
fwrite_whole p out w = ground (arith, load_all (content p) p.length)

pub next_expected : (n : ℕ) → rem_256 (one_more (last_of n)) ≡ pos (n % 256)
next_expected zero = refl
next_expected (suc k) = ground arith

-- The state behind `in_sequence`.
abbrev pub after : ℕ → List ℕ → Pkt → Receiver → Receiver
after n out p r = record r {
  last_ack = pos (n % 256);
  window_start = (n + 1) % 256;
  window_end = (n + 3) % 256;
  first_time = false;
  file = some (out ++ content p);
  ended = p.length == 0;
}

pub in_sequence-Synced :
    (sys : Round) (n : ℕ) (out : List ℕ) (p : Pkt) (r : Receiver)
    → Smooth sys
    → IsWhole p
    → Synced n out r
    → in_sequence sys p r ≡ done (after n out p r)
unfolding in_sequence open_file slide
in_sequence-Synced sys n out p r smooth whole s =
    ground (arith, fwrite_whole p [] whole, fwrite_whole p out whole, next_expected n)

-- With nothing kept the slots are left alone.
pub flush_slots-empty :
    (a : ℕ) (r : Receiver)
    → r.buffer ≡ none ∷ none ∷ none ∷ []
    → flush_slots a window_size 0 r ≡ done r
unfolding flush_slots flush_slot
flush_slots-empty a r e = ground arith

-- The acknowledgement of sequence number `s`, with `f` free places.
pub acknowledge_sends :
    (z : Crc32) (sys : Round) (a f s : ℕ) (p : Pkt) (r : Receiver)
    → Smooth sys
    → r.free ≡ pos f
    → f ≤ max_window_size
    → u8_of r.last_ack ≡ s
    → s < 256
    → p.timestamp < 2 ^ 32
    → r.store.cell a ≡ some p
    → acknowledge z sys a r
      ≡ done (record r {
        store = record { next = r.store.next; cell = update r.store.cell a none };
        acks = r.acks ++ (encoding z (ack_packet f s p.timestamp) ∷ []);
      })
unfolding acknowledge deref pkt_del pkt_new
acknowledge_sends z sys a f s p r smooth free hf last hs ht held =
    let v : IsValid (ack_packet f s p.timestamp) = ack_packet-IsValid f s p.timestamp hf hs ht in
    ground (
      arith,
      create_ack_pkt_result f s p.timestamp,
      send_pkt-encoding z (ack_packet f s p.timestamp) v (omega arith) refl,
    )

-- The state behind `handle`.
abbrev pub delivered : Crc32 → ℕ → List ℕ → ℕ → Pkt → Receiver → Receiver
delivered z n out a p r = record r {
  store = record { next = r.store.next; cell = update r.store.cell a none };
  last_ack = pos (n % 256);
  window_start = (n + 1) % 256;
  window_end = (n + 3) % 256;
  first_time = false;
  file = some (out ++ content p);
  ended = p.length == 0;
  acks = r.acks ++ (encoding z (ack_packet 3 (n % 256) p.timestamp) ∷ []);
}

pub at_low_end : (n : ℕ) → is_in_window (n % 256) (n % 256) ((n + 2) % 256) ≡ true
unfolding is_in_window
at_low_end n = ground arith

-- `handle` on the next expected packet.
pub handle_expected :
    (z : Crc32) (sys : Round) (n : ℕ) (out : List ℕ) (a : ℕ) (p : Pkt) (r : Receiver)
    → Smooth sys
    → IsWhole p
    → Synced n out r
    → p.type ≡ ptype_data
    → p.seqnum ≡ n % 256
    → p.timestamp < 2 ^ 32
    → r.store.cell a ≡ some p
    → handle z sys a p r ≡ done (delivered z n out a p r)
unfolding handle accept
handle_expected z sys n out a p r smooth whole s t seq ht held =
    let r1 : Receiver = after n out p r in
    ground (
      arith,
      at_low_end n,
      next_expected n,
      in_sequence-Synced sys n out p r smooth whole s,
      flush_slots-empty a r1,
      acknowledge_sends z sys a 3 (n % 256) p r1 smooth,
    )

-- It leaves the receiver in step, unless the packet ends the transfer.
pub delivered-Synced :
    (z : Crc32) (n : ℕ) (out : List ℕ) (a : ℕ) (p : Pkt) (r : Receiver)
    → Synced n out r
    → p.length ≢ 0
    → Synced (suc n) (out ++ content p) (delivered z n out a p r)
delivered-Synced z n out a p r s nonempty = ground arith
