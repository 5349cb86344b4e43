-- ===== src/Old/Program/Refusing.antt =====
-- The earlier receiver with no place for a connection (old/src/receiver.c).
use lingi1341_trtp_gr.Base.{
  ℕ, ◌+◌, ◌*◌, ◌≡◌, refl, ap, ◌∙◌, arith, true, false, none, some, List, [], ◌∷◌, ◌++◌, length, All,
  append_assoc, append-nil,
}
use lingi1341_trtp_gr.Base.Int.{ℤ, pos, ltb_ℤ}
use lingi1341_trtp_gr.Base.Run.{done}
use lingi1341_trtp_gr.Zlib.{Crc32}
use lingi1341_trtp_gr.Command.{Atoi}
use lingi1341_trtp_gr.Program.{Address}
use lingi1341_trtp_gr.Old.ConnexionList.{contains, run_over}
use lingi1341_trtp_gr.Old.Loop.State.{Server, Events, going, at_start}
use lingi1341_trtp_gr.Old.Loop.Pass.{serve, pass, read_write_loop}
use lingi1341_trtp_gr.Old.Loop.Refusing.{Looks, all_arrivals}
use lingi1341_trtp_gr.Old.Program.{Found, Getopt, MainCalls, default_commands, main_result, main}
use lingi1341_trtp_gr.Old.Program.Reads.{after_options, Reads, AreTold}
use lingi1341_trtp_gr.Old.Program.Runs.{main_runs}

-- Nobody is known, and there is no place.
record IsClosed (max : ℤ) (s : Server) : Type 0 where
  no_place : ltb_ℤ (pos 0) max ≡ false
  nobody : s.connexions ≡ []
  none_open : s.nbre_connexion_en_cours ≡ pos 0

serve_refuses :
    (z : Crc32) (max : ℤ) (sys : Events) (client_addr : ℕ) (bytes : List ℕ)
    (rest : List (ℕ × List ℕ)) (s : Server)
    → IsClosed max s
    → serve z max sys client_addr bytes rest s ≡ going s
unfolding serve contains run_over
serve_refuses z max sys client_addr bytes rest s h =
    ground (arith, h.no_place, h.nobody, h.none_open)

pass_refuses :
    (z : Crc32) (max : ℤ) (sys : Events) (s : Server) (queue : List (ℕ × List ℕ))
    → s.queue ++ sys.arrivals ≡ queue
    → Looks sys
    → IsClosed max s
    → pass z max sys s ≡ going (record s { queue = queue })
unfolding pass
pass_refuses z max sys s [] e looks h = ground (arith, e, looks)
pass_refuses z max sys s ((client_addr, bytes) ∷ rest) e looks h = ground (
  arith,
  e,
  looks,
  serve_refuses z max sys client_addr bytes rest (record s { queue = (client_addr, bytes) ∷ rest })
      (record { no_place = h.no_place; nobody = h.nobody; none_open = h.none_open }),
)

loop_refuses :
    (z : Crc32) (max : ℤ) (passes : List Events) (s : Server)
    → All Looks passes
    → IsClosed max s
    → read_write_loop z max passes s ≡ going (record s { queue = s.queue ++ all_arrivals passes })
unfolding read_write_loop
loop_refuses z max [] s looks h = ground (arith, append-nil s.queue)
loop_refuses z max (sys ∷ later) s (look, looks) h = ground (
  arith,
  pass_refuses z max sys s (s.queue ++ sys.arrivals) refl look h,
  loop_refuses z max later (record s { queue = s.queue ++ sys.arrivals }) looks
      (record { no_place = h.no_place; nobody = h.nobody; none_open = h.none_open }),
  append_assoc s.queue sys.arrivals (all_arrivals later),
)

-- A limit that is not positive is accepted, also that of a text that is no number, and serves
-- nobody. When `getopt` finds some options, each with its own argument, then a hostname and a port,
-- told apart by a colon in the hostname or by their numbers, the address is resolved, memory is
-- granted, that for the head of the list of connections holds zeros, the socket is made and bound,
-- the limit is 0 or less, and `poll` and `recvfrom` succeed in each pass, the program stays in its
-- loop, and its state is that of the start but for the queue, where all that arrived still is.
pub main_refuses :
    (z : Crc32) (atoi : Atoi) (calls : ℕ → Getopt) (options : List Found) (hostname port : List ℕ)
    (sys : MainCalls) (addr : Address) (others : List Address) (fd : ℕ) (passes : List Events)
    → Reads calls options hostname port
    → AreTold atoi hostname port
    → sys.res ≡ some (addr ∷ others)
    → sys.list_granted ≡ true
    → sys.cleared ≡ true
    → sys.sockets.socket ≡ some fd
    → sys.sockets.bound ≡ true
    → ltb_ℤ (pos 0) (after_options atoi options default_commands).nbre_connexion_max ≡ false
    → All Looks passes
    → main z atoi calls (3 + 2 * length options) sys passes
      ≡ done (some (none, record at_start { queue = all_arrivals passes }))
main_refuses z atoi calls options hostname port sys addr others fd passes reads told found granted
      cleared made bound no_place looks =
    let max : ℤ = (after_options atoi options default_commands).nbre_connexion_max in
    main_runs z atoi calls options hostname port sys addr others fd passes reads told found granted
      cleared made bound
    ∙ ap main_result (
        loop_refuses z max passes at_start looks
          (record { no_place = no_place; nobody = refl; none_open = refl }))
