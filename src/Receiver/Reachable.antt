-- ===== src/Receiver/Reachable.antt =====
-- Every state that the receiver's loop reaches (src/receiver.c).
use mathlib.Core.Path.{subst}
use native.Mathlib.Decide.{ℕ_discrete}
use lingi1341_trtp_gr.Base.{
  ℕ, ◌%◌, ◌<◌, ◌≤◌, ◌≡◌, refl, sym, ap, arith, Bool, true, false, Option, none, some, List, [], ◌∷◌,
  ◌==◌, if◌then◌else◌, Bool-cases, inl, inr, All, length,
}
use lingi1341_trtp_gr.Base.Int.{ℤ, pos}
use lingi1341_trtp_gr.Base.Bytes.{IsByte}
use lingi1341_trtp_gr.Base.Run.{fault, exit_failure, or_fault, or_exit}
use lingi1341_trtp_gr.Base.Leaves.{Leaves, Leaves-bind, Leaves-if}
use lingi1341_trtp_gr.Zlib.{Crc32}
use lingi1341_trtp_gr.Packet.{Pkt, pkt_new, zeroed, max_message_size}
use lingi1341_trtp_gr.Packet.Valid.{IsValid}
use lingi1341_trtp_gr.Packet.Decode.Sound.{Returns}
use lingi1341_trtp_gr.Transfer.{receive_pkt}
use lingi1341_trtp_gr.Transfer.EndToEnd.{receive_pkt-succeeds}
use lingi1341_trtp_gr.Receiver.State.{Receiver, Round, start, one_more, rem_256, is_nat, print_data}
use lingi1341_trtp_gr.Receiver.Loop.{
  accept, discard, handle, allocate, round, selective_repeat_receiver,
}
use lingi1341_trtp_gr.Receiver.InOrder.{next_expected}
use lingi1341_trtp_gr.Receiver.Standing.Expected.{discard-Standing, expected-Standing}
use lingi1341_trtp_gr.Receiver.Standing.Early.{early-Standing}
use lingi1341_trtp_gr.Receiver.Standing.{Stands, Standing}

accept-Standing :
    (z : Crc32) (sys : Round) (n : ℕ) (p : Pkt) (r : Receiver)
    → Standing n r
    → p.seqnum < 256
    → Leaves Stands (accept z sys r.store.next p (allocate p r))
unfolding accept
accept-Standing z sys n p r s hs =
    let expected : is_nat p.seqnum (rem_256 (one_more (allocate p r).last_ack))
        ≡ (p.seqnum == n % 256) =
      unfold allocate in ground (arith, s.last, next_expected n) in
    elim (ℕ_discrete p.seqnum (n % 256)) [
      | yes seq ↦
          let next : (p.seqnum == n % 256) ≡ true = ground (arith, seq) in
          rw (expected, next, Leaves) (expected-Standing z sys n p r s)
      | no other ↦
          let early : (p.seqnum == n % 256) ≡ false = ground (arith, other) in
          rw (expected, early, Leaves) (early-Standing z sys n p r s hs other)
    ]

handle-Standing :
    (z : Crc32) (sys : Round) (n : ℕ) (p : Pkt) (r : Receiver)
    → Standing n r
    → p.seqnum < 256
    → Leaves Stands (handle z sys r.store.next p (allocate p r))
unfolding handle
handle-Standing z sys n p r s hs =
    Leaves-if Stands _ (accept z sys r.store.next p (allocate p r))
      (discard r.store.next (allocate p r)) (accept-Standing z sys n p r s hs)
      (discard-Standing n p r s)

-- The receive buffer is an array of at least 528 bytes.
abbrev pub HasBuffer : Round → Type 0
HasBuffer sys = (max_message_size ≤ length sys.bytes) × All IsByte sys.bytes

zeroed-IsValid : IsValid zeroed
zeroed-IsValid = omega arith

or_fault-Leaves : {A : Type 0} (P : A → Type 0) (x : Option A) → Returns P x → Leaves P (or_fault x)
or_fault-Leaves P none h = elim h [ ]
or_fault-Leaves P (some a) h = h

new_packet-Leaves :
    (peeked granted : Bool)
    → Leaves (λ p. p ≡ zeroed) (if peeked then or_exit (pkt_new granted) else exit_failure)
unfolding pkt_new
new_packet-Leaves false granted = tt
new_packet-Leaves true false = tt
new_packet-Leaves true true = refl

abbrev Received : ℤ × Pkt → Type 0
Received x = (x.0 ≡ pos 1) × IsValid x.1

round-Standing :
    (z : Crc32) (sys : Round) (n : ℕ) (r : Receiver)
    → HasBuffer sys
    → Standing n r
    → Leaves Stands (round z sys r)
unfolding round
round-Standing z sys n r (room, bytes) s =
    Leaves-bind (λ fresh. fresh ≡ zeroed) Stands
      (if sys.peeked then or_exit (pkt_new sys.packet_granted) else exit_failure) _
      (new_packet-Leaves sys.peeked sys.packet_granted)
      (λ fresh e.
        Leaves-bind Received Stands
          (or_fault (receive_pkt z sys.payload_granted sys.bytes sys.len fresh)) _
          (or_fault-Leaves Received _ (
            receive_pkt-succeeds z sys.payload_granted sys.bytes sys.len fresh room bytes
              (subst IsValid (sym e) zeroed-IsValid) (ap (λ p. p.payload) e)))
          (λ x (one, valid).
            rw (one, Leaves)
              (Leaves-if Stands (print_data sys.null_shown x.1)
                (handle z sys r.store.next x.1 (allocate x.1 r)) fault
                (handle-Standing z sys n x.1 r s valid.seqnum_in) tt)))

loop-Standing :
    (z : Crc32) (rounds : List Round) (n : ℕ) (r : Receiver)
    → All HasBuffer rounds
    → Standing n r
    → Leaves Stands (selective_repeat_receiver z rounds r)
unfolding selective_repeat_receiver
loop-Standing z [] n r buffers s = (n, s)
loop-Standing z (sys ∷ later) n r (buffer, buffers) s = elim (Bool-cases r.ended) [
  | inl over ↦ rw (over, Leaves) (n, s)
  | inr going ↦
      rw (going, Leaves)
        (Leaves-bind Stands Stands (round z sys r) _ (round-Standing z sys n r buffer s)
          (λ r1 (m, s1). loop-Standing z later m r1 buffers s1))
]

-- Every state that the receiver's loop reaches. From its start state, whatever the system does in
-- any number of rounds, with a receive buffer of at least 528 bytes, each state that the loop leaves
-- is one in which some number n of packets was taken in sequence: the window goes from n to n + 2 on
-- the circle of 256; the last number acknowledged is the one before n, or -1 at first; the file is
-- open once n is not 0; and either the receive buffer is empty and 3 places are free, or exactly one
-- slot holds an address, of a packet that was freed, and from 0 to 2 places are free.
pub reachable_states :
    (z : Crc32) (rounds : List Round)
    → All HasBuffer rounds
    → Leaves Stands (selective_repeat_receiver z rounds start)
reachable_states z rounds buffers = loop-Standing z rounds 0 start buffers (record {
  low = refl;
  high = refl;
  last = refl;
  first = refl;
  opened = refl;
  kept = inl (refl, refl);
})
