-- ===== src/Receiver/Standing.antt =====
-- The states that the receiver's loop can be in, and its steps on them (src/receiver.c).
pub mod Expected
pub mod Early
use lingi1341_trtp_gr.Base.{
  ℕ, zero, suc, ◌+◌, ◌-◌, ◌%◌, ◌<◌, ◌≤◌, ◌≡◌, ◌≢◌, refl, sym, ap, ◌∙◌, arith, Bool, true, false,
  not, Option, none, some, List, [], ◌∷◌, ◌++◌, set, get_elem?, ◌==◌, if◌then◌else◌, ◌⊎◌,
  Bool-cases, inl, inr,
}
use lingi1341_trtp_gr.Base.Int.{ℤ, pos, negsuc, u8_of}
use lingi1341_trtp_gr.Base.Run.{Run, done, fault, exit_failure, ◌>>=◌, or_fault, or_exit}
use lingi1341_trtp_gr.Base.Leaves.{Leaves, Leaves-bind, Leaves-after, Leaves-if, Leaves-weaken}
use lingi1341_trtp_gr.Base.Memory.{load}
use lingi1341_trtp_gr.Zlib.{Crc32}
use lingi1341_trtp_gr.Packet.{
  Pkt, pkt_new, pkt_get_length, pkt_get_payload, pkt_get_timestamp, pkt_set_window, pkt_set_type,
}
use lingi1341_trtp_gr.Transfer.{create_ack_pkt, send_pkt}
use lingi1341_trtp_gr.Receiver.State.{
  Store, Receiver, Round, update, window_size, one_more, one_less, rem_256, is_nat, deref, pkt_del,
  fwrite_payload,
}
use lingi1341_trtp_gr.Receiver.Steps.{
  opened, open_file, slide, in_sequence, keep_packet, flush_slot, flush_slots, is_error,
  acknowledge,
}
use lingi1341_trtp_gr.Receiver.InOrder.{last_of, next_expected}
use lingi1341_trtp_gr.Receiver.Kept.{one_kept}

abbrev pub is_open : Option (List ℕ) → Bool
is_open none = false
is_open (some out) = true

-- One slot holds the address of a packet that was freed; at most two places are free.
abbrev pub OneLost : Receiver → Type 0
OneLost r =
    (i b m : ℕ) × (i < 3)
    × (r.buffer ≡ one_kept i b)
    × (b < r.store.next)
    × (r.store.cell b ≡ none)
    × (r.free ≡ pos m)
    × (m ≤ 2)

abbrev pub NothingKept : Receiver → Type 0
NothingKept r = (r.buffer ≡ none ∷ none ∷ none ∷ []) × (r.free ≡ pos 3)

-- `n` packets were taken in sequence.
pub record Standing (n : ℕ) (r : Receiver) : Type 0 where
  pub low : r.window_start ≡ n % 256
  pub high : r.window_end ≡ (n + 2) % 256
  pub last : r.last_ack ≡ last_of n
  pub first : r.first_time ≡ (n == 0)
  pub opened : is_open r.file ≡ not (n == 0)
  pub kept : NothingKept r ⊎ OneLost r

-- Some number of packets was taken in sequence.
abbrev pub Stands : Receiver → Type 0
Stands r = (n : ℕ) × Standing n r

-- The state behind a packet taken in sequence.
abbrev pub moved : ℕ → List ℕ → Bool → Receiver → Receiver
moved n out ended r = record r {
  last_ack = pos (n % 256);
  window_start = (n + 1) % 256;
  window_end = (n + 3) % 256;
  first_time = false;
  file = some out;
  ended = ended;
}

abbrev pub Moves : ℕ → Receiver → Receiver → Type 0
Moves n r r' = (out : List ℕ) × (ended : Bool) × (r' ≡ moved n out ended r)

fwrite_payload-opens :
    (p : Pkt) (file : Option (List ℕ))
    → Leaves (λ out. (written : List ℕ) × (out ≡ some written)) (fwrite_payload p file)
unfolding fwrite_payload
fwrite_payload-opens p none = tt
fwrite_payload-opens p (some out) =
    Leaves-after (λ out'. (written : List ℕ) × (out' ≡ some written))
      (or_fault (elim (pkt_get_payload p) [
        | none ↦ if pkt_get_length p == 0 then some [] else none
        | some obj ↦ load obj 0 (pkt_get_length p)
      ]))
      (λ bytes. done (some (out ++ bytes))) (λ bytes. (out ++ bytes, refl))

-- The file is open, with whatever in it.
abbrev Marks : Receiver → Receiver → Type 0
Marks r r1 = (file : Option (List ℕ)) × (r1 ≡ record r { first_time = false; file = file })

open_file-Marks : (sys : Round) (r : Receiver) → Leaves (Marks r) (open_file sys r)
unfolding open_file
open_file-Marks sys r = elim (Bool-cases r.first_time) [
  | inl new ↦
      rw (new, Leaves)
        (Leaves-after (Marks r) sys.created
          (λ named. done (record r { file = opened named.1; first_time = false }))
          (λ named. (opened named.1, refl)))
  | inr old ↦ rw (old, Leaves) (r.file, ground (arith, old))
]

pub in_sequence-Moves :
    (sys : Round) (n : ℕ) (p : Pkt) (r : Receiver)
    → r.window_start ≡ n % 256
    → r.window_end ≡ (n + 2) % 256
    → r.last_ack ≡ last_of n
    → r.first_time ≡ (n == 0)
    → Leaves (Moves n r) (in_sequence sys p r)
unfolding in_sequence slide
in_sequence-Moves sys n p r low high last first =
    Leaves-bind (Marks r) (Moves n r) (open_file sys r) _ (open_file-Marks sys r) (λ r1 (file, e1).
      Leaves-bind (λ out. (written : List ℕ) × (out ≡ some written)) (Moves n r)
        (fwrite_payload p r1.file) _ (fwrite_payload-opens p r1.file)
        (λ out (written, e2). (
          written,
          (if pkt_get_length p == 0 then true else r.ended),
          ground (arith, next_expected n),
        )))

-- The state behind an acknowledgement: the packet at `a` is freed.
abbrev pub passed_on : ℕ → List (List ℕ) → Receiver → Receiver
passed_on a acks r = record r {
  store = record { next = r.store.next; cell = update r.store.cell a none };
  acks = acks;
}

abbrev pub Passes : ℕ → Receiver → Receiver → Type 0
Passes a r r' = (acks : List (List ℕ)) × (r' ≡ passed_on a acks r)

abbrev Freed : ℕ → Receiver → Store → Type 0
Freed a r h = h ≡ record { next = r.store.next; cell = update r.store.cell a none }

pkt_del-frees : (a : ℕ) (r : Receiver) → Leaves (Freed a r) (pkt_del r.store a)
unfolding pkt_del
pkt_del-frees a r = ground arith

pub acknowledge-Passes :
    (z : Crc32) (sys : Round) (a : ℕ) (r : Receiver) → Leaves (Passes a r) (acknowledge z sys a r)
unfolding acknowledge
acknowledge-Passes z sys a r =
    Leaves-after (Passes a r) (or_exit (pkt_new sys.ack_granted)) _ (λ (fresh : Pkt).
      Leaves-after (Passes a r) (deref r.store a) _ (λ (p : Pkt).
        Leaves-after (Passes a r)
          (create_ack_pkt (u8_of r.free) (u8_of r.last_ack) (pkt_get_timestamp p) fresh) _
          (λ (x : ℤ × Pkt).
            Leaves-after (Passes a r)
              (if is_error x.0 then exit_failure else send_pkt z sys.ack_sent x.1) _
              (λ (y : ℤ × List ℕ).
                Leaves-bind (Freed a r) (Passes a r)
                  (if is_error y.0 then exit_failure else pkt_del r.store a) _
                  (Leaves-if (Freed a r) (is_error y.0) exit_failure (pkt_del r.store a) tt
                    (pkt_del-frees a r))
                  (λ h freed. (r.acks ++ (y.1 ∷ []), ground (arith, freed)))))))

create_ack_pkt_refuses :
    (seqnum timestamp : ℕ) (p : Pkt) → create_ack_pkt 255 seqnum timestamp p ≡ exit_failure
unfolding create_ack_pkt pkt_set_type pkt_set_window
create_ack_pkt_refuses seqnum timestamp p = refl

-- With fewer than 0 places free the window does not fit in its field, which ends the process.
pub acknowledge-negative :
    (z : Crc32) (sys : Round) (a : ℕ) (r : Receiver)
    → r.free ≡ negsuc 0
    → Leaves (λ _. ⊥) (acknowledge z sys a r)
unfolding acknowledge
acknowledge-negative z sys a r negative =
    Leaves-after (λ _. ⊥) (or_exit (pkt_new sys.ack_granted)) _
      (λ (fresh : Pkt).
        Leaves-after (λ _. ⊥) (deref r.store a) _
          (λ (p : Pkt). ground (
            arith,
            negative,
            create_ack_pkt_refuses (u8_of r.last_ack) (pkt_get_timestamp p) fresh,
          )))

pub flush_slots-two :
    (a b i j : ℕ) (q : Pkt) (r : Receiver)
    → i < 3
    → j < 3
    → i ≢ j
    → r.buffer ≡ set (one_kept i b) j (some a)
    → r.store.cell b ≡ none
    → r.store.cell a ≡ some q
    → is_nat q.seqnum (one_more r.last_ack) ≡ false
    → flush_slots a window_size 0 r ≡ fault
unfolding flush_slots flush_slot deref
flush_slots-two a b zero zero q r hi hj other e freed held early = absurd (other refl)
flush_slots-two a b zero (suc zero) q r hi hj other e freed held early = ground arith
flush_slots-two a b zero (suc (suc zero)) q r hi hj other e freed held early = ground arith
flush_slots-two a b zero (suc (suc (suc j))) q r hi hj other e freed held early =
    absurd (omega (arith, hj))
flush_slots-two a b (suc zero) zero q r hi hj other e freed held early = ground arith
flush_slots-two a b (suc zero) (suc zero) q r hi hj other e freed held early = absurd (other refl)
flush_slots-two a b (suc zero) (suc (suc zero)) q r hi hj other e freed held early = ground arith
flush_slots-two a b (suc zero) (suc (suc (suc j))) q r hi hj other e freed held early =
    absurd (omega (arith, hj))
flush_slots-two a b (suc (suc zero)) zero q r hi hj other e freed held early = ground arith
flush_slots-two a b (suc (suc zero)) (suc zero) q r hi hj other e freed held early = ground arith
flush_slots-two a b (suc (suc zero)) (suc (suc zero)) q r hi hj other e freed held early =
    absurd (other refl)
flush_slots-two a b (suc (suc zero)) (suc (suc (suc j))) q r hi hj other e freed held early =
    absurd (omega (arith, hj))
flush_slots-two a b (suc (suc (suc i))) j q r hi hj other e freed held early =
    absurd (omega (arith, hi))
