-- ===== src/Receiver/Standing/Expected.antt =====
-- A packet that is discarded, and one that is the next expected (src/receiver.c).
use mathlib.Core.Path.{subst}
use lingi1341_trtp_gr.Base.{ℕ, suc, ◌≡◌, refl, sym, ap, ◌∙◌, arith, Bool, List, inl, inr}
use lingi1341_trtp_gr.Base.Run.{done, ◌>>=◌}
use lingi1341_trtp_gr.Base.Leaves.{Leaves, Leaves-bind, Leaves-weaken}
use lingi1341_trtp_gr.Zlib.{Crc32}
use lingi1341_trtp_gr.Packet.{Pkt}
use lingi1341_trtp_gr.Receiver.State.{Receiver, Round, window_size, pkt_del}
use lingi1341_trtp_gr.Receiver.Steps.{in_sequence, flush_slots, acknowledge}
use lingi1341_trtp_gr.Receiver.Loop.{discard, allocate}
use lingi1341_trtp_gr.Receiver.InOrder.{flush_slots-empty}
use lingi1341_trtp_gr.Receiver.Kept.{flush_slots-dangling}
use lingi1341_trtp_gr.Receiver.Standing.{
  Stands, Standing, NothingKept, moved, Moves, in_sequence-Moves, passed_on, Passes,
  acknowledge-Passes,
}

discarded-Standing :
    (n : ℕ) (p : Pkt) (r : Receiver)
    → Standing n r
    → Standing n (passed_on r.store.next r.acks (allocate p r))
unfolding allocate
discarded-Standing n p r s = record {
  low = s.low;
  high = s.high;
  last = s.last;
  first = s.first;
  opened = s.opened;
  kept = elim s.kept [
    | inl all ↦ inl all
    | inr (i, b, m, hi, slots, old, freed, places, few) ↦
        inr (i, b, m, hi, slots, omega (arith, old), ground (arith, old, freed), places, few)
  ];
}

discard-allocate :
    (p : Pkt) (r : Receiver)
    → discard r.store.next (allocate p r) ≡ done (passed_on r.store.next r.acks (allocate p r))
unfolding discard allocate pkt_del
discard-allocate p r = ground arith

pub discard-Standing :
    (n : ℕ) (p : Pkt) (r : Receiver)
    → Standing n r
    → Leaves Stands (discard r.store.next (allocate p r))
discard-Standing n p r s = rw (discard-allocate p r, Leaves) (n, discarded-Standing n p r s)

moved-Standing :
    (n : ℕ) (out : List ℕ) (ended : Bool) (acks : List (List ℕ)) (p : Pkt) (r : Receiver)
    → NothingKept r
    → Standing (suc n) (passed_on r.store.next acks (moved n out ended (allocate p r)))
unfolding allocate
moved-Standing n out ended acks p r all = record {
  low = ground arith;
  high = ground arith;
  last = refl;
  first = ground arith;
  opened = ground arith;
  kept = inl all;
}

after_move :
    (z : Crc32) (sys : Round) (n : ℕ) (out : List ℕ) (ended : Bool) (p : Pkt) (r r1 : Receiver)
    → Standing n r
    → r1 ≡ moved n out ended (allocate p r)
    → Leaves Stands
        (flush_slots r.store.next window_size 0 r1 >>= (λ r2. acknowledge z sys r.store.next r2))
unfolding allocate
after_move z sys n out ended p r r1 s e =
    let a : ℕ = r.store.next in
    elim s.kept [
      | inl (empty, all) ↦
          rw (flush_slots-empty a r1 (ground (arith, e, empty)), Leaves)
            (Leaves-weaken (Passes a r1) Stands (acknowledge z sys a r1)
              (acknowledge-Passes z sys a r1)
              (λ r2 (acks, e2).
                subst Stands (sym (e2 ∙ ap (passed_on a acks) e))
                  (suc n, moved-Standing n out ended acks p r (empty, all))))
      | inr (i, b, m, hi, slots, old, freed, places, few) ↦
          rw
            (
              flush_slots-dangling a b i r1 hi (ground (arith, e, slots))
                  (ground (arith, e, freed, old)),
              Leaves,
            )
            tt
    ]

-- The packet is the next expected.
pub expected-Standing :
    (z : Crc32) (sys : Round) (n : ℕ) (p : Pkt) (r : Receiver)
    → Standing n r
    → Leaves Stands (
        in_sequence sys p (allocate p r) >>= (λ r1.
          flush_slots r.store.next window_size 0 r1 >>= (λ r2. acknowledge z sys r.store.next r2)))
expected-Standing z sys n p r s =
    let a : ℕ = r.store.next in
    Leaves-bind (Moves n (allocate p r)) Stands (in_sequence sys p (allocate p r)) _
      (in_sequence-Moves sys n p (allocate p r) (unfold allocate in s.low)
        (unfold allocate in s.high) (unfold allocate in s.last) (unfold allocate in s.first))
      (λ r1 (out, ended, e). after_move z sys n out ended p r r1 s e)
