-- ===== src/Program/Opened.antt =====
-- The receiver's loop when its file can be made (src/receiver.c).
use lingi1341_trtp_gr.Base.{ℕ, ◌≡◌, refl, arith, some, List, [], ◌∷◌, map, All}
use lingi1341_trtp_gr.Base.Run.{done}
use lingi1341_trtp_gr.Zlib.{Crc32}
use lingi1341_trtp_gr.Packet.{Pkt}
use lingi1341_trtp_gr.Receiver.State.{Receiver, Round}
use lingi1341_trtp_gr.Receiver.Steps.{open_file, in_sequence, acknowledge}
use lingi1341_trtp_gr.Receiver.Loop.{accept, handle, round, selective_repeat_receiver}
use lingi1341_trtp_gr.Program.{with_file}

-- The file of a round can be made.
abbrev pub Opens : Round → Type 0
Opens sys = (named : ℕ × List ℕ) × (sys.created ≡ done (named.0, some named.1))

module _ (x : ℕ × List ℕ) where
  open_file_any :
      (sys : Round) (r : Receiver)
      → Opens sys
      → open_file (with_file (done (x.0, some x.1)) sys) r ≡ open_file sys r
  unfolding open_file
  open_file_any sys r (named, opens) = ground (arith, opens)

  in_sequence_any :
      (sys : Round) (p : Pkt) (r : Receiver)
      → Opens sys
      → in_sequence (with_file (done (x.0, some x.1)) sys) p r ≡ in_sequence sys p r
  unfolding in_sequence
  in_sequence_any sys p r opens = ground (arith, open_file_any sys r opens)

  acknowledge_any :
      (z : Crc32) (sys : Round) (a : ℕ) (r : Receiver)
      → acknowledge z (with_file (done (x.0, some x.1)) sys) a r ≡ acknowledge z sys a r
  unfolding acknowledge
  acknowledge_any z sys a r = refl

  accept_any :
      (z : Crc32) (sys : Round) (a : ℕ) (p : Pkt) (r : Receiver)
      → Opens sys
      → accept z (with_file (done (x.0, some x.1)) sys) a p r ≡ accept z sys a p r
  unfolding accept acknowledge
  accept_any z sys a p r opens = ground (arith, in_sequence_any sys p r opens)

  handle_any :
      (z : Crc32) (sys : Round) (a : ℕ) (p : Pkt) (r : Receiver)
      → Opens sys
      → handle z (with_file (done (x.0, some x.1)) sys) a p r ≡ handle z sys a p r
  unfolding handle
  handle_any z sys a p r opens = ground (arith, accept_any z sys a p r opens)

  round_any :
      (z : Crc32) (sys : Round) (r : Receiver)
      → Opens sys
      → round z (with_file (done (x.0, some x.1)) sys) r ≡ round z sys r
  unfolding round
  round_any z sys r opens = grind (arith, handle_any, opens)

  pub loop_any :
      (z : Crc32) (rounds : List Round) (r : Receiver)
      → All Opens rounds
      → selective_repeat_receiver z (map (with_file (done (x.0, some x.1))) rounds) r
        ≡ selective_repeat_receiver z rounds r
  unfolding selective_repeat_receiver
  loop_any z [] r opens = refl
  loop_any z (sys ∷ later) r (opens, all_open) =
      grind (arith, round_any z sys r opens, loop_any z later)
