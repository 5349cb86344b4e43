-- ===== src/Old/Loop/Called.antt =====
-- The call of `read_write_loop` by `main` (old/src/read_write_loop.c, old/src/receiver.c): with a list
-- of connections whose head may be no list, and a descriptor that may be -1.
use lingi1341_trtp_gr.Base.{
  ◌≡◌, ◌≢◌, refl, arith, true, Bool, Option, none, some, List, [], ◌∷◌, ◌++◌, map, if◌then◌else◌,
  All,
}
use lingi1341_trtp_gr.Base.Int.{ℤ, pos, negsuc}
use lingi1341_trtp_gr.Zlib.{Crc32}
use lingi1341_trtp_gr.Old.ConnexionList.{Connexion}
use lingi1341_trtp_gr.Old.Loop.State.{
  Server, Events, Outcome, fault, out_of_fuel, returned, going, at_start, ◌>>=◌,
}
use lingi1341_trtp_gr.Old.Loop.Pass.{pass, read_write_loop}
use lingi1341_trtp_gr.Old.Loop.Halting.{read_write_loop_ends}

-- A pass, and the loop, when the head holds what was in its memory: to look for the sender of a
-- datagram reads through it, a fault.
unfoldable pub headless_pass : Events → Server → Outcome Server
headless_pass sys s0 =
    let s : Server = record s0 { queue = s0.queue ++ sys.arrivals } in
    if sys.polled
    then elim s.queue [ [] ↦ going s | d ∷ rest ↦ if sys.peeked then fault else returned s ]
    else returned s

unfoldable pub headless_loop : List Events → Server → Outcome Server
headless_loop [] s = going s
headless_loop (sys ∷ later) s = do s1 ← headless_pass sys s; headless_loop later s1

abbrev pub without_arrivals : Events → Events
without_arrivals sys = record sys { arrivals = [] }

-- `poll` ignores a negative descriptor: nothing arrives there.
abbrev pub on_socket : ℤ → List Events → List Events
on_socket (pos fd) passes = passes
on_socket (negsuc n) passes = map without_arrivals passes

-- The loop from its start.
unfoldable pub call_loop : Crc32 → ℤ → Option (List Connexion) → List Events → Outcome Server
call_loop z max none passes = headless_loop passes at_start
call_loop z max (some list) passes =
    read_write_loop z max passes (record at_start { connexions = list })

headless_pass_ends : (sys : Events) (s : Server) → headless_pass sys s ≢ out_of_fuel
unfolding headless_pass
headless_pass_ends sys s = ground arith

headless_loop_ends : (passes : List Events) (s : Server) → headless_loop passes s ≢ out_of_fuel
unfolding headless_loop
headless_loop_ends [] s = ground arith
headless_loop_ends (sys ∷ later) s =
    grind (arith, headless_pass_ends sys s, headless_loop_ends later)

pub call_loop_ends :
    (z : Crc32) (max : ℤ) (head : Option (List Connexion)) (passes : List Events)
    → call_loop z max head passes ≢ out_of_fuel
unfolding call_loop
call_loop_ends z max none passes = headless_loop_ends passes at_start
call_loop_ends z max (some list) passes = read_write_loop_ends z max passes _

-- With nothing in the queue the list is not looked at.
abbrev pub IsPolled : Events → Type 0
IsPolled sys = sys.polled ≡ true

deaf_loop :
    (z : Crc32) (max : ℤ) (passes : List Events)
    → All IsPolled passes
    → read_write_loop z max (map without_arrivals passes) at_start ≡ going at_start
unfolding read_write_loop pass
deaf_loop z max [] polled = refl
deaf_loop z max (sys ∷ later) (p, polled) = ground (arith, p, deaf_loop z max later polled)

deaf_headless :
    (passes : List Events)
    → All IsPolled passes
    → headless_loop (map without_arrivals passes) at_start ≡ going at_start
unfolding headless_loop headless_pass
deaf_headless [] polled = refl
deaf_headless (sys ∷ later) (p, polled) = ground (arith, p, deaf_headless later polled)

-- On a negative descriptor the loop stays as it starts.
pub call_loop-deaf :
    (z : Crc32) (max : ℤ) (cleared : Bool) (passes : List Events)
    → All IsPolled passes
    → call_loop z max (if cleared then some [] else none) (map without_arrivals passes)
      ≡ going at_start
unfolding call_loop
call_loop-deaf z max cleared passes polled =
    ground (arith, deaf_loop z max passes polled, deaf_headless passes polled)
