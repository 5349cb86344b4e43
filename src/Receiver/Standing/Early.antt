-- ===== src/Receiver/Standing/Early.antt =====
-- A packet that is early and is kept (src/receiver.c).
use mathlib.Core.Path.{subst}
use native.Mathlib.Decide.{ℕ_discrete}
use lingi1341_trtp_gr.Base.{
  ℕ, zero, suc, ◌%◌, ◌<◌, ◌≤◌, ◌≡◌, ◌≢◌, refl, sym, ap, ◌∙◌, arith, none, some, List, set, inl, inr,
}
use lingi1341_trtp_gr.Base.Int.{ℤ, pos}
use lingi1341_trtp_gr.Base.Run.{done, fault, ◌>>=◌}
use lingi1341_trtp_gr.Base.Leaves.{Leaves, Leaves-weaken}
use lingi1341_trtp_gr.Zlib.{Crc32}
use lingi1341_trtp_gr.Packet.{Pkt}
use lingi1341_trtp_gr.Receiver.State.{Receiver, Round, window_size, one_less}
use lingi1341_trtp_gr.Receiver.Steps.{keep_packet, flush_slots, acknowledge}
use lingi1341_trtp_gr.Receiver.Loop.{allocate}
use lingi1341_trtp_gr.Receiver.InOrder.{last_of}
use lingi1341_trtp_gr.Receiver.Kept.{one_kept, not_next, flush_slots-kept}
use lingi1341_trtp_gr.Receiver.Standing.{
  Stands, Standing, NothingKept, passed_on, Passes, acknowledge-Passes, acknowledge-negative,
  flush_slots-two,
}

kept-Standing :
    (n : ℕ) (acks : List (List ℕ)) (p : Pkt) (r : Receiver)
    → Standing n r
    → NothingKept r
    → Standing n (passed_on r.store.next acks (keep_packet r.store.next p (allocate p r)))
unfolding allocate keep_packet
kept-Standing n acks p r s (empty, all) = record {
  low = s.low;
  high = s.high;
  last = s.last;
  first = s.first;
  opened = s.opened;
  kept = inr (
    p.seqnum % 3,
    r.store.next,
    2,
    omega arith,
    ap (λ slots. set slots (p.seqnum % 3) (some r.store.next)) empty,
    omega arith,
    ground arith,
    ground (arith, all),
    omega arith,
  );
}

set_again : (i a b : ℕ) → i < 3 → set (one_kept i b) i (some a) ≡ one_kept i a
set_again zero a b h = refl
set_again (suc zero) a b h = refl
set_again (suc (suc zero)) a b h = refl
set_again (suc (suc (suc i))) a b h = absurd (omega (arith, h))

-- Another packet for the slot that was lost.
again-Standing :
    (n b m : ℕ) (acks : List (List ℕ)) (p : Pkt) (r : Receiver)
    → Standing n r
    → r.buffer ≡ one_kept (p.seqnum % 3) b
    → r.free ≡ pos (suc m)
    → m ≤ 1
    → Standing n (passed_on r.store.next acks (keep_packet r.store.next p (allocate p r)))
unfolding allocate keep_packet
again-Standing n b m acks p r s slots places few = record {
  low = s.low;
  high = s.high;
  last = s.last;
  first = s.first;
  opened = s.opened;
  kept = inr (
    p.seqnum % 3,
    r.store.next,
    m,
    omega arith,
    ap (λ slots. set slots (p.seqnum % 3) (some r.store.next)) slots
        ∙ set_again (p.seqnum % 3) r.store.next b (omega arith),
    omega arith,
    ground arith,
    ground (arith, places),
    omega (arith, few),
  );
}

-- The packet that was kept alone is not next.
kept_alone :
    (n : ℕ) (p : Pkt) (r : Receiver)
    → r.last_ack ≡ last_of n
    → set r.buffer (p.seqnum % 3) (some r.store.next) ≡ one_kept (p.seqnum % 3) r.store.next
    → p.seqnum < 256
    → p.seqnum ≢ n % 256
    → flush_slots r.store.next window_size 0 (keep_packet r.store.next p (allocate p r))
      ≡ done (keep_packet r.store.next p (allocate p r))
unfolding allocate keep_packet
kept_alone n p r last alone hs other =
    flush_slots-kept r.store.next r.store.next (p.seqnum % 3) p
      (keep_packet r.store.next p (allocate p r)) (omega arith) alone (ground arith)
      (rw (last) (not_next n p.seqnum hs other))

-- Beside the lost packet there is a fault.
pub kept_twice :
    (n i b : ℕ) (p : Pkt) (r : Receiver)
    → r.last_ack ≡ last_of n
    → i < 3
    → r.buffer ≡ one_kept i b
    → b < r.store.next
    → r.store.cell b ≡ none
    → i ≢ p.seqnum % 3
    → p.seqnum < 256
    → p.seqnum ≢ n % 256
    → flush_slots r.store.next window_size 0 (keep_packet r.store.next p (allocate p r)) ≡ fault
unfolding allocate keep_packet
kept_twice n i b p r last hi slots old freed differ hs other =
    flush_slots-two r.store.next b i (p.seqnum % 3) p (keep_packet r.store.next p (allocate p r)) hi
      (omega arith) differ (ap (λ l. set l (p.seqnum % 3) (some r.store.next)) slots)
      (ground (arith, freed, old)) (ground arith) (rw (last) (not_next n p.seqnum hs other))

acknowledged-Standing :
    (z : Crc32) (sys : Round) (n a : ℕ) (r : Receiver)
    → ((acks : List (List ℕ)) → Standing n (passed_on a acks r))
    → Leaves Stands (acknowledge z sys a r)
acknowledged-Standing z sys n a r stands =
    Leaves-weaken (Passes a r) Stands (acknowledge z sys a r) (acknowledge-Passes z sys a r)
      (λ r2 (acks, e). subst Stands (sym e) (n, stands acks))

keep_packet_free :
    {n : ℤ} (p : Pkt) (r : Receiver)
    → r.free ≡ n
    → (keep_packet r.store.next p (allocate p r)).free ≡ one_less n
unfolding keep_packet allocate
keep_packet_free p r e = ap one_less e

-- A packet kept over the lost one takes one more place, while there is one.
kept_again :
    (z : Crc32) (sys : Round) (n b m : ℕ) (p : Pkt) (r : Receiver)
    → Standing n r
    → r.buffer ≡ one_kept (p.seqnum % 3) b
    → r.free ≡ pos m
    → m ≤ 2
    → Leaves Stands (acknowledge z sys r.store.next (keep_packet r.store.next p (allocate p r)))
kept_again z sys n b zero p r s slots places few =
    let r1 : Receiver = keep_packet r.store.next p (allocate p r) in
    Leaves-weaken (λ _. ⊥) Stands (acknowledge z sys r.store.next r1)
      (acknowledge-negative z sys r.store.next r1 (keep_packet_free p r places))
      (λ r2 never. elim never [ ])
kept_again z sys n b (suc m) p r s slots places few =
    acknowledged-Standing z sys n r.store.next (keep_packet r.store.next p (allocate p r))
      (λ acks. again-Standing n b m acks p r s slots places (omega (arith, few)))

-- The packet is early: it is kept, and the slots hold nothing that is next.
pub early-Standing :
    (z : Crc32) (sys : Round) (n : ℕ) (p : Pkt) (r : Receiver)
    → Standing n r
    → p.seqnum < 256
    → p.seqnum ≢ n % 256
    → Leaves Stands (
        flush_slots r.store.next window_size 0 (keep_packet r.store.next p (allocate p r))
        >>= (λ r2. acknowledge z sys r.store.next r2))
early-Standing z sys n p r s hs other =
    let a : ℕ = r.store.next in
    let r1 : Receiver = keep_packet a p (allocate p r) in
    elim s.kept [
      | inl (empty, all) ↦
          rw
            (
              kept_alone n p r s.last (ap (λ slots. set slots (p.seqnum % 3) (some a)) empty) hs
                  other,
              Leaves,
            )
            (acknowledged-Standing z sys n a r1 (λ acks. kept-Standing n acks p r s (empty, all)))
      | inr (i, b, m, hi, slots, old, freed, places, few) ↦ elim (ℕ_discrete i (p.seqnum % 3)) [
        | yes same ↦
            let slot : r.buffer ≡ one_kept (p.seqnum % 3) b = slots ∙ ap (λ j. one_kept j b) same in
            rw
              (
                kept_alone n p r s.last
                    (ap (λ l. set l (p.seqnum % 3) (some a)) slot
                      ∙ set_again (p.seqnum % 3) a b (omega arith))
                    hs other,
                Leaves,
              )
              (kept_again z sys n b m p r s slot places few)
        | no differ ↦ rw (kept_twice n i b p r s.last hi slots old freed differ hs other, Leaves) tt
      ]
    ]
