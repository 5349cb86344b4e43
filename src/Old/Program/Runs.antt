-- ===== src/Old/Program/Runs.antt =====
-- The earlier receiver's program from its arguments to its exit (old/src/receiver.c).
use lingi1341_trtp_gr.Base.{
  ℕ, ◌+◌, ◌*◌, ◌≡◌, ◌⊎◌, inl, inr, ap, ◌∙◌, arith, true, false, none, some, Option, List, [], ◌∷◌,
  length, if◌then◌else◌, All, Bool, Option-cases,
}
use lingi1341_trtp_gr.Base.Int.{ℤ, pos, negsuc, ltb_ℤ}
use lingi1341_trtp_gr.Base.Run.{done}
use lingi1341_trtp_gr.Zlib.{Crc32}
use lingi1341_trtp_gr.Command.{Atoi}
use lingi1341_trtp_gr.Program.{Address, htons}
use lingi1341_trtp_gr.Old.Socket.{SocketCalls, real_address, create_socket, set_port}
use lingi1341_trtp_gr.Old.ConnexionList.{Connexion}
use lingi1341_trtp_gr.Old.Loop.State.{Events, at_start}
use lingi1341_trtp_gr.Old.Loop.Pass.{read_write_loop}
use lingi1341_trtp_gr.Old.Loop.Called.{call_loop, call_loop-deaf, IsPolled, on_socket}
use lingi1341_trtp_gr.Old.Program.{
  Found, Getopt, MainCalls, default_commands, create_connexion_list, main_result, run_receiver,
  main,
}
use lingi1341_trtp_gr.Old.Program.Reads.{after_options, Reads, AreTold, interpret_lem}

-- The limit of the last `-m`, or 100.
abbrev pub limit : Atoi → List Found → ℤ
limit atoi options = (after_options atoi options default_commands).nbre_connexion_max

-- The head of the list as `main` finds it.
abbrev pub first_head : Bool → Option (List Connexion)
first_head cleared = if cleared then some [] else none

abbrev with_port : Address → ℤ → Address
with_port addr port = if ltb_ℤ (pos 0) port then record addr { sin6_port = htons port } else addr

-- The socket that is made and bound, and the one that is not.
made_socket :
    (sys : SocketCalls) (addr : Address) (port : ℤ) (fd : ℕ)
    → sys.socket ≡ some fd
    → sys.bound ≡ true
    → (ends : Option Address × Option Address) × (create_socket sys (some addr) port none (negsuc 0)
        ≡ done (pos fd, ends))
unfolding create_socket set_port
made_socket sys addr port fd made bound =
    ((some (with_port addr port), none), ground (arith, made, bound))

refused_socket :
    (sys : SocketCalls) (addr : Address) (port : ℤ)
    → (sys.socket ≡ none) ⊎ (sys.bound ≡ false)
    → (ends : Option Address × Option Address) × (create_socket sys (some addr) port none (negsuc 0)
        ≡ done (negsuc 0, ends))
unfolding create_socket set_port
refused_socket sys addr port (inl missing) = ((some addr, none), ground (arith, missing))
refused_socket sys addr port (inr unbound) = elim (Option-cases sys.socket) [
  | inl missing ↦ ((some addr, none), ground (arith, missing))
  | inr (fd, made) ↦ ((some (with_port addr port), none), ground (arith, made, unbound))
]

main_calls :
    (z : Crc32) (atoi : Atoi) (calls : ℕ → Getopt) (options : List Found) (hostname port : List ℕ)
    (sys : MainCalls) (addr : Address) (others : List Address) (passes : List Events) (sfd : ℤ)
    (ends : Option Address × Option Address)
    → Reads calls options hostname port
    → AreTold atoi hostname port
    → sys.res ≡ some (addr ∷ others)
    → sys.list_granted ≡ true
    → create_socket sys.sockets (some addr) (atoi port) none (negsuc 0) ≡ done (sfd, ends)
    → main z atoi calls (3 + 2 * length options) sys passes
      ≡ main_result
          (call_loop z (limit atoi options) (first_head sys.cleared) (on_socket sfd passes))
unfolding main run_receiver real_address create_connexion_list
main_calls z atoi calls options hostname port sys addr others passes sfd ends reads told found
      granted socket =
    ground
      (arith, found, granted, socket, interpret_lem atoi calls options hostname port reads told)

-- The program reads its socket, whether or not the head of its list is one.
pub main_listens :
    (z : Crc32) (atoi : Atoi) (calls : ℕ → Getopt) (options : List Found) (hostname port : List ℕ)
    (sys : MainCalls) (addr : Address) (others : List Address) (fd : ℕ) (passes : List Events)
    → Reads calls options hostname port
    → AreTold atoi hostname port
    → sys.res ≡ some (addr ∷ others)
    → sys.list_granted ≡ true
    → sys.sockets.socket ≡ some fd
    → sys.sockets.bound ≡ true
    → main z atoi calls (3 + 2 * length options) sys passes
      ≡ main_result (call_loop z (limit atoi options) (first_head sys.cleared) passes)
main_listens z atoi calls options hostname port sys addr others fd passes reads told found granted
      made bound =
    let (ends, socket) = made_socket sys.sockets addr (atoi port) fd made bound in
    main_calls z atoi calls options hostname port sys addr others passes (pos fd) ends reads told
      found granted socket

pub main_runs :
    (z : Crc32) (atoi : Atoi) (calls : ℕ → Getopt) (options : List Found) (hostname port : List ℕ)
    (sys : MainCalls) (addr : Address) (others : List Address) (fd : ℕ) (passes : List Events)
    → Reads calls options hostname port
    → AreTold atoi hostname port
    → sys.res ≡ some (addr ∷ others)
    → sys.list_granted ≡ true
    → sys.cleared ≡ true
    → sys.sockets.socket ≡ some fd
    → sys.sockets.bound ≡ true
    → main z atoi calls (3 + 2 * length options) sys passes
      ≡ main_result (
          read_write_loop z
            (after_options atoi options default_commands).nbre_connexion_max
            passes
            at_start)
unfolding call_loop
main_runs z atoi calls options hostname port sys addr others fd passes reads told found granted
      cleared made bound =
    main_listens z atoi calls options hostname port sys addr others fd passes reads told found
      granted made bound
    ∙ ap (λ b. main_result (call_loop z (limit atoi options) (first_head b) passes)) cleared

-- The earlier receiver's program is deaf without its socket. When `getopt` finds some options, each
-- with its own argument, then a hostname and a port, told apart by a colon in the hostname or by their
-- numbers, the address is resolved and memory is granted, but the socket cannot be made or bound, then as long as `poll` succeeds the
-- program stays in its loop and in its first state, whatever is sent to it: it only prints the error.
pub main_deaf :
    (z : Crc32) (atoi : Atoi) (calls : ℕ → Getopt) (options : List Found) (hostname port : List ℕ)
    (sys : MainCalls) (addr : Address) (others : List Address) (passes : List Events)
    → Reads calls options hostname port
    → AreTold atoi hostname port
    → sys.res ≡ some (addr ∷ others)
    → sys.list_granted ≡ true
    → (sys.sockets.socket ≡ none) ⊎ (sys.sockets.bound ≡ false)
    → All IsPolled passes
    → main z atoi calls (3 + 2 * length options) sys passes ≡ done (some (none, at_start))
main_deaf z atoi calls options hostname port sys addr others passes reads told found granted refused
      polled =
    let (ends, socket) = refused_socket sys.sockets addr (atoi port) refused in
    main_calls z atoi calls options hostname port sys addr others passes (negsuc 0) ends reads told
      found granted socket
    ∙ ap main_result (call_loop-deaf z (limit atoi options) sys.cleared passes polled)
