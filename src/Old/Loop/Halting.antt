-- ===== src/Old/Loop/Halting.antt =====
-- Every pass of the earlier receiver's loop ends (old/src/read_write_loop.c).
use mathlib.Core.Path.{subst}
use lingi1341_trtp_gr.Base.{
  ℕ, ◌≢◌, arith, Option, none, some, List, [], ◌∷◌, ◌++◌, if◌then◌else◌, Bool-cases, inl, inr,
}
use lingi1341_trtp_gr.Base.Int.{ℤ}
use lingi1341_trtp_gr.Zlib.{Crc32}
use lingi1341_trtp_gr.Packet.{Pkt, PktStatus, pkt_ok, e_tr}
use lingi1341_trtp_gr.Old.Packet.{pkt_new}
use lingi1341_trtp_gr.Old.ConnexionList.{Connexion, contains}
use lingi1341_trtp_gr.Old.Loop.State.{Server, Events, out_of_fuel, returned, going, ◌>>=◌}
use lingi1341_trtp_gr.Old.Loop.Serve.{Current}
use lingi1341_trtp_gr.Old.Loop.Pass.{
  decode_recu, react, open_connexion, read_datagram, serve, pass, read_write_loop,
}
use lingi1341_trtp_gr.Old.Loop.Ending.{Ends, Halts, Halts-bind, Halts-if}
use lingi1341_trtp_gr.Old.Loop.Handling.{handle_packet-Halts, send_nack-Halts}

decode_recu-Halts :
    (z : Crc32) (sys : Events) (bytes : List ℕ) (p : Option Pkt) → Halts (decode_recu z sys bytes p)
unfolding decode_recu
decode_recu-Halts z sys bytes none = ground arith
decode_recu-Halts z sys bytes (some p) = ground arith

react-Halts :
    (z : Crc32) (sys : Events) (c : Connexion) (code : PktStatus) (p : Option Pkt) (s : Server)
    → Halts (react z sys c code p s)
unfolding react
react-Halts z sys c code none s = tt
react-Halts z sys c pkt_ok (some p) s = handle_packet-Halts z sys c s.store.next _
react-Halts z sys c e_tr (some p) s = send_nack-Halts z sys c.client_addr s.store.next _
react-Halts z sys c _ (some p) s = tt

open_connexion-Halts :
    (sys : Events) (c : Option Connexion) (client_addr : ℕ) (s : Server)
    → Halts (open_connexion sys c client_addr s)
unfolding open_connexion
open_connexion-Halts sys none client_addr s = ground arith
open_connexion-Halts sys (some c) client_addr s = tt

read_datagram-Halts :
    (z : Crc32) (sys : Events) (bytes : List ℕ) (rest : List (ℕ × List ℕ)) (cur : Current)
    → Halts (read_datagram z sys bytes rest cur)
unfolding read_datagram
read_datagram-Halts z sys bytes rest (c, s) =
    Halts-if sys.has_read
      (decode_recu z sys bytes (pkt_new sys.packet_granted)
        >>= (λ (x : PktStatus × Option Pkt). react z sys c x.0 x.1 (record s { queue = rest })))
      (returned s)
      (Halts-bind (decode_recu z sys bytes (pkt_new sys.packet_granted)) _
        (decode_recu-Halts z sys bytes (pkt_new sys.packet_granted))
        (λ x. react-Halts z sys c x.0 x.1 (record s { queue = rest })))
      tt

serve-Halts :
    (z : Crc32) (max : ℤ) (sys : Events) (client_addr : ℕ) (bytes : List ℕ)
    (rest : List (ℕ × List ℕ)) (s : Server)
    → Halts (serve z max sys client_addr bytes rest s)
unfolding serve
serve-Halts z max sys client_addr bytes rest s =
    let known : Option Connexion = contains (some s.connexions) client_addr in
    ground (
      arith,
      Halts-bind (open_connexion sys known client_addr s) (read_datagram z sys bytes rest)
          (open_connexion-Halts sys known client_addr s)
          (λ cur. read_datagram-Halts z sys bytes rest cur),
    )

pass-Halts : (z : Crc32) (max : ℤ) (sys : Events) (s : Server) → Halts (pass z max sys s)
unfolding pass
pass-Halts z max sys s = elim (Bool-cases sys.polled) [
  | inl polled ↦ rw (polled, Ends) (looks (s.queue ++ sys.arrivals))
  | inr failed ↦ rw (failed, Ends) tt
]
  where
    looks :
        (queue : List (ℕ × List ℕ))
        → Halts (elim queue [
          | [] ↦ going (record s { queue = s.queue ++ sys.arrivals })
          | (client_addr, bytes) ∷ rest ↦
              if sys.peeked
              then serve z max sys client_addr bytes rest
                  (record s { queue = s.queue ++ sys.arrivals })
              else returned (record s { queue = s.queue ++ sys.arrivals })
        ])
    looks [] = tt
    looks ((client_addr, bytes) ∷ rest) = ground (
      arith,
      serve-Halts z max sys client_addr bytes rest (record s { queue = s.queue ++ sys.arrivals }),
    )

loop-Halts :
    (z : Crc32) (max : ℤ) (passes : List Events) (s : Server)
    → Halts (read_write_loop z max passes s)
unfolding read_write_loop
loop-Halts z max [] s = tt
loop-Halts z max (sys ∷ later) s =
    Halts-bind (pass z max sys s) (read_write_loop z max later) (pass-Halts z max sys s)
      (λ s1. loop-Halts z max later s1)

-- The loop ends after the passes that it is given: whatever the system does in them, and in whatever
-- state it starts, the fuel that a pass gives to its loop over the packets that wait, one unit for
-- each of them, is never used up.
pub read_write_loop_ends :
    (z : Crc32) (max : ℤ) (passes : List Events) (s : Server)
    → read_write_loop z max passes s ≢ out_of_fuel
read_write_loop_ends z max passes s out = subst Halts out (loop-Halts z max passes s)
