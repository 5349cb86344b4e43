-- ===== src/Sender/Acknowledged.antt =====
-- A turn of the sender's loop whose packet is acknowledged (src/sender.c).
use lingi1341_trtp_gr.Base.{
  ℕ, zero, suc, ◌+◌, ◌%◌, ◌^◌, ◌≤◌, ◌<◌, ◌≡◌, refl, ap, arith, true, Option, none, some, List, [],
  ◌∷◌, ◌++◌, length, get_elem?, set, replicate, All,
}
use lingi1341_trtp_gr.Base.Int.{pos}
use lingi1341_trtp_gr.Base.Bytes.{IsByte}
use lingi1341_trtp_gr.Base.Run.{done}
use lingi1341_trtp_gr.Zlib.{Crc32}
use lingi1341_trtp_gr.Packet.{Pkt, pkt_new, zeroed, max_window_size}
use lingi1341_trtp_gr.Packet.Valid.{IsValid}
use lingi1341_trtp_gr.Packet.Encode.Layout.{encoding}
use lingi1341_trtp_gr.Window.{is_in_window}
use lingi1341_trtp_gr.Transfer.{receive_pkt}
use lingi1341_trtp_gr.Transfer.Create.{data_packet, create_data_pkt_result}
use lingi1341_trtp_gr.Transfer.Send.{granted_send, send_pkt-encoding}
use lingi1341_trtp_gr.Transfer.EndToEnd.{data_packet-IsValid}
use lingi1341_trtp_gr.Sender.{
  hello, Sender, Resize, Turn, send_at, send_slot, send_slots, clear_at, clear_slot, clear_slots,
  slide_to, settle, settle_resized, await_ack, turn,
}

abbrev no_packets : List (Option Pkt)
no_packets = replicate max_window_size none

-- The packet of the next turn.
abbrev pub next_packet : Sender → Pkt
next_packet s =
    data_packet 0 (s.window_size % 2 ^ 8) (length hello) (s.seqnum % 2 ^ 8) (s.k % 2 ^ 32) hello

hello-IsByte : All IsByte hello
hello-IsByte = ground arith

pub next_packet-IsValid : (s : Sender) → s.window_size ≤ max_window_size → IsValid (next_packet s)
next_packet-IsValid s h =
    data_packet-IsValid (s.window_size % 2 ^ 8) (length hello) (s.seqnum % 2 ^ 8) (s.k % 2 ^ 32)
      hello (omega arith) (omega arith) (omega arith) (omega arith) (omega arith) (omega arith)
      hello-IsByte

-- The state behind the sending phase.
abbrev pub in_flight : Crc32 → Sender → Sender
in_flight z s = record s {
  k = s.k + 1;
  buffer = set s.buffer 0 (some (next_packet s));
  free = 0;
  seqnum = s.seqnum + 1;
  sent = s.sent ++ (encoding z (next_packet s) ∷ []);
}

send_first :
    (z : Crc32) (sys : Turn) (s : Sender)
    → s.window_size ≤ max_window_size
    → s.free ≡ 1
    → sys.made 0 ≡ true
    → sys.copied 0 ≡ true
    → sys.send 0 ≡ granted_send
    → send_at z sys 0 (some none) s ≡ done (in_flight z s)
unfolding send_at pkt_new
send_first z sys s small one_free made copied sends = ground (
  arith,
  create_data_pkt_result true 0 (s.window_size % 2 ^ 8) (length hello) (s.seqnum % 2 ^ 8)
      (s.k % 2 ^ 32) hello (omega arith),
  send_pkt-encoding z (next_packet s) (next_packet-IsValid s small) (omega arith) refl,
)

stop_sending :
    (z : Crc32) (sys : Turn) (n i : ℕ) (s : Sender) → s.free ≡ 0 → send_slots z sys n i s ≡ done s
unfolding send_slots
stop_sending z sys zero i s e = refl
stop_sending z sys (suc n) i s e = ground (arith, e)

get_elem?-none : (n i : ℕ) → i < n → get_elem? {A = Option Pkt} (replicate n none) i ≡ some none
get_elem?-none zero i h = absurd (omega (arith, h))
get_elem?-none (suc n) zero h = refl
get_elem?-none (suc n) (suc i) h = get_elem?-none n i (omega (arith, h))

clear_empty :
    (timestamp n i : ℕ) (s : Sender)
    → s.buffer ≡ no_packets
    → i + n ≤ max_window_size
    → clear_slots timestamp n i s ≡ done s
unfolding clear_slots clear_slot clear_at
clear_empty timestamp zero i s e h = refl
clear_empty timestamp (suc n) i s e h = ground (
  arith,
  e,
  get_elem?-none max_window_size i (omega (arith, h)),
  clear_empty timestamp n (i + 1) s e (omega (arith, h)),
)

-- The first slot holds `p` and no other one a packet.
clear_first :
    (timestamp n : ℕ) (p : Pkt) (s : Sender)
    → s.buffer ≡ set no_packets 0 (some p)
    → p.timestamp ≤ timestamp
    → 1 ≤ n
    → n ≤ max_window_size
    → clear_slots timestamp n 0 s ≡ done (record s { buffer = no_packets; free = s.free + 1 })
unfolding clear_slots clear_slot clear_at
clear_first timestamp zero p s e le some_slots small = absurd (omega (arith, some_slots))
clear_first timestamp (suc n) p s e le some_slots small = ground (
  arith,
  e,
  clear_empty timestamp n 1 (record s { buffer = no_packets; free = s.free + 1 }) refl
      (omega (arith, small)),
)

sending_phase :
    (z : Crc32) (sys : Turn) (n : ℕ) (s : Sender)
    → 1 ≤ n
    → s.window_size ≤ max_window_size
    → s.free ≡ 1
    → s.buffer ≡ no_packets
    → sys.made 0 ≡ true
    → sys.copied 0 ≡ true
    → sys.send 0 ≡ granted_send
    → send_slots z sys n 0 s ≡ done (in_flight z s)
unfolding send_slots send_slot
sending_phase z sys zero s some_size small one_free empty made copied sends =
    absurd (omega (arith, some_size))
sending_phase z sys (suc n) s some_size small one_free empty made copied sends = ground (
  arith,
  one_free,
  empty,
  send_first z sys s small one_free made copied sends,
  stop_sending z sys n 1 (in_flight z s) refl,
)

-- The state of `settle` in such a turn.
abbrev resized_to : Crc32 → ℕ → ℕ → Sender → Sender
resized_to z size high s = record (in_flight z s) { window_size = size; window_end = high }

settle_first :
    (z : Crc32) (free_receiver : ℕ) (q : Pkt) (size high : ℕ) (s : Sender)
    → s.buffer ≡ no_packets
    → 1 ≤ size
    → size ≤ max_window_size
    → is_in_window q.seqnum s.window_start high ≡ true
    → s.k % 2 ^ 32 ≤ q.timestamp
    → settle free_receiver q (resized_to z size high s)
      ≡ done (
          slide_to free_receiver q.seqnum
            (record (resized_to z size high s) { buffer = no_packets; free = 1 }))
unfolding settle
settle_first z free_receiver q size high s empty some_slots fits inside in_time = ground (
  arith,
  inside,
  clear_first q.timestamp size (next_packet s) (resized_to z size high s)
      (ap (λ slots. set slots 0 (some (next_packet s))) empty) in_time some_slots fits,
)

-- A turn whose packet is acknowledged. With an empty buffer and one free place, let every system
-- call succeed, let `resize_buffer` succeed, leave the packets where they are and make a window of
-- 1 to 31, and let the packet received have a sequence number inside the window and a timestamp not
-- below the one sent. Then the turn sends one packet, the next in sequence; it ends with an empty
-- buffer and one free place again, and with a window that starts behind the number received.
pub turn_acknowledged :
    (z : Crc32) (resize_buffer : Resize) (free_receiver : ℕ) (sys : Turn) (q : Pkt) (size high : ℕ)
    (s : Sender)
    → 1 ≤ s.window_size
    → s.window_size ≤ max_window_size
    → s.free ≡ 1
    → s.buffer ≡ replicate max_window_size none
    → sys.made 0 ≡ true
    → sys.copied 0 ≡ true
    → sys.send 0 ≡ granted_send
    → sys.ack_granted ≡ true
    → receive_pkt z sys.payload_granted sys.bytes sys.len zeroed ≡ some (pos 1, q)
    → resize_buffer s.window_size s.window_end (in_flight z s).buffer q.window
      ≡ record { rslt = pos 1; size = size; high = high; slots = (in_flight z s).buffer }
    → 1 ≤ size
    → size ≤ max_window_size
    → is_in_window q.seqnum s.window_start high ≡ true
    → s.k % 2 ^ 32 ≤ q.timestamp
    → turn z resize_buffer free_receiver sys s
      ≡ done (record s {
        window_size = size;
        window_start = (q.seqnum + 1) % 256;
        window_end = ((q.seqnum + 1) % 256 + free_receiver) % 31;
        seqnum = s.seqnum + 1;
        k = s.k + 1;
        sent = s.sent ++ (encoding z (next_packet s) ∷ []);
      })
unfolding turn await_ack settle_resized slide_to pkt_new
turn_acknowledged z resize_buffer free_receiver sys q size high s some_size small one_free empty
      made copied sends ack arrives resized some_slots fits inside in_time =
    ground (
      arith,
      sending_phase z sys s.window_size s some_size small one_free empty made copied sends,
      settle_first z free_receiver q size high s empty some_slots fits inside in_time,
    )
