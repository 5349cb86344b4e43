-- ===== src/Old/Program/Faulting.antt =====
-- The earlier receiver's program and the first packet of a sender (old/src/receiver.c,
-- old/src/read_write_loop.c).
use lingi1341_trtp_gr.Base.{
  ℕ, ◌+◌, ◌*◌, ◌≡◌, refl, ap, ◌∙◌, arith, true, false, some, List, [], ◌∷◌, ◌++◌, length, All, Bool,
}
use lingi1341_trtp_gr.Base.Int.{ℤ, pos, ltb_ℤ}
use lingi1341_trtp_gr.Base.Run
use lingi1341_trtp_gr.Zlib.{Crc32}
use lingi1341_trtp_gr.Packet.{Pkt}
use lingi1341_trtp_gr.Packet.Encode.Layout.{encoding}
use lingi1341_trtp_gr.Receiver.Rounds.{IsData}
use lingi1341_trtp_gr.Command.{Atoi}
use lingi1341_trtp_gr.Program.{Address}
use lingi1341_trtp_gr.Old.Loop.State.{Events, fault, going, at_start}
use lingi1341_trtp_gr.Old.Loop.Pass.{pass, read_write_loop}
use lingi1341_trtp_gr.Old.Program.{Found, Getopt, MainCalls, default_commands, main_result, main}
use lingi1341_trtp_gr.Old.Program.Reads.{after_options, Reads, AreTold}
use lingi1341_trtp_gr.Old.Program.Runs.{main_listens, first_head}
use lingi1341_trtp_gr.Old.Loop.Called.{headless_pass, headless_loop, call_loop}
use lingi1341_trtp_gr.Old.Program.Newcomer.{Admits, newcomer_faults}

-- A pass in which nothing arrives.
abbrev pub IsIdle : Events → Type 0
IsIdle sys = (sys.polled ≡ true) × (sys.arrivals ≡ [])

pass_quiet :
    (z : Crc32) (max : ℤ) (sys : Events) → IsIdle sys → pass z max sys at_start ≡ going at_start
unfolding pass
pass_quiet z max sys quiet = ground (arith, quiet)

loop_faults :
    (z : Crc32) (max : ℤ) (before : List Events) (sys : Events) (later : List Events)
    (client_addr : ℕ) (p : Pkt) (rest : List (ℕ × List ℕ))
    → All IsIdle before
    → Admits sys
    → IsData p
    → ltb_ℤ (pos 0) max ≡ true
    → sys.arrivals ≡ (client_addr, encoding z p) ∷ rest
    → read_write_loop z max (before ++ (sys ∷ later)) at_start ≡ fault
unfolding read_write_loop
loop_faults z max [] sys later client_addr p rest quiet o d room first =
    ground
      (arith, newcomer_faults z max sys client_addr p rest at_start o d room refl refl refl first)
loop_faults z max (q ∷ before) sys later client_addr p rest (quiet, all_quiet) o d room first =
    ground (
      arith,
      pass_quiet z max q quiet,
      loop_faults z max before sys later client_addr p rest all_quiet o d room first,
    )

-- The first datagram is looked for through a head that is no list.
headless_faults :
    (before : List Events) (sys : Events) (later : List Events) (d : ℕ × List ℕ)
    (rest : List (ℕ × List ℕ))
    → All IsIdle before
    → Admits sys
    → sys.arrivals ≡ d ∷ rest
    → headless_loop (before ++ (sys ∷ later)) at_start ≡ fault
unfolding headless_loop headless_pass
headless_faults [] sys later d rest quiet o first = ground (arith, o.polled, o.peeked, first)
headless_faults (q ∷ before) sys later d rest (quiet, all_quiet) o first =
    ground (arith, quiet, headless_faults before sys later d rest all_quiet o first)

call_faults :
    (z : Crc32) (max : ℤ) (cleared : Bool) (before : List Events) (sys : Events)
    (later : List Events) (client_addr : ℕ) (p : Pkt) (rest : List (ℕ × List ℕ))
    → All IsIdle before
    → Admits sys
    → IsData p
    → ltb_ℤ (pos 0) max ≡ true
    → sys.arrivals ≡ (client_addr, encoding z p) ∷ rest
    → call_loop z max (first_head cleared) (before ++ (sys ∷ later)) ≡ fault
unfolding call_loop
call_faults z max true before sys later client_addr p rest quiet o d room first =
    loop_faults z max before sys later client_addr p rest quiet o d room first
call_faults z max false before sys later client_addr p rest quiet o d room first =
    headless_faults before sys later (client_addr, encoding z p) rest quiet o first

-- The earlier receiver's program breaks on the first packet of a sender. When it is called with some
-- options, each with its own argument, a hostname and a port, told apart by a colon in the hostname
-- or by their numbers, and a positive limit, the address is resolved, memory is granted and the socket is
-- made and bound, then
-- after any number of passes in which nothing arrives, a pass that reads a data packet as the new
-- sender encodes it, from any client and with any payload and sequence number, and for which every
-- call succeeds, makes the program fault, whatever would come later: if the memory for the head of
-- the list held zeros, the packet is freed once it is acknowledged, and read again; and if not, the
-- sender is looked for through that memory.
pub main_faults :
    (z : Crc32) (atoi : Atoi) (calls : ℕ → Getopt) (options : List Found) (hostname port : List ℕ)
    (sys : MainCalls) (addr : Address) (others : List Address) (fd : ℕ) (before : List Events)
    (first : Events) (later : List Events) (client_addr : ℕ) (p : Pkt) (rest : List (ℕ × List ℕ))
    → Reads calls options hostname port
    → AreTold atoi hostname port
    → sys.res ≡ some (addr ∷ others)
    → sys.list_granted ≡ true
    → sys.sockets.socket ≡ some fd
    → sys.sockets.bound ≡ true
    → ltb_ℤ (pos 0) (after_options atoi options default_commands).nbre_connexion_max ≡ true
    → All IsIdle before
    → Admits first
    → IsData p
    → first.arrivals ≡ (client_addr, encoding z p) ∷ rest
    → main z atoi calls (3 + 2 * length options) sys (before ++ (first ∷ later)) ≡ Run.fault
main_faults z atoi calls options hostname port sys addr others fd before first later client_addr p
      rest reads told found granted made bound room quiet opens d arrives =
    let max : ℤ = (after_options atoi options default_commands).nbre_connexion_max in
    main_listens z atoi calls options hostname port sys addr others fd (before ++ (first ∷ later))
      reads told found granted made bound
    ∙ ap main_result (
        call_faults z max sys.cleared before first later client_addr p rest quiet opens d room
          arrives)
