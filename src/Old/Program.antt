-- ===== src/Old/Program.antt =====
-- The earlier receiver's program: `main` of old/src/receiver.c, and `createConnexionList` of
-- old/src/ConnexionList.c.
pub mod Options
pub mod Reads
pub mod Ending
pub mod Runs
pub mod Refusing
pub mod Newcomer
pub mod Faulting
mod Tests
use lingi1341_trtp_gr.Base.{
  ℕ, zero, suc, ◌+◌, Bool, true, false, not, ◌&&◌, Option, none, some, List, [], ◌∷◌, get_elem?,
  ◌==◌, ltb, if◌then◌else◌,
}
use lingi1341_trtp_gr.Base.Int.{ℤ, pos, negsuc}
use lingi1341_trtp_gr.Base.Run.{Run, fault, exit_failure, done, ◌>>=◌, or_fault, or_exit}
use lingi1341_trtp_gr.Zlib.{Crc32}
use lingi1341_trtp_gr.Command.{Atoi, is_zero}
use lingi1341_trtp_gr.Program.{Address}
use lingi1341_trtp_gr.Old.Socket.{SocketCalls, real_address, create_socket}
use lingi1341_trtp_gr.Old.ConnexionList.{Connexion}
use lingi1341_trtp_gr.Old.Loop.State.{
  Server, Events, Outcome, out_of_fuel, returned, going, at_start,
}
use lingi1341_trtp_gr.Old.Loop.Called.{on_socket, call_loop}

-- What one call of `getopt` finds; `other` is everything else, -1 too.
pub data Found : Type 0 where
  found_o : List ℕ → Found
  found_m : List ℕ → Found
  other : Found

-- One call of `getopt`: what it finds, the order in which it leaves the arguments, and whether the
-- turn of the loop gets memory.
pub record Getopt : Type 0 where
  pub found : Found
  pub argv : List (List ℕ)
  pub granted : Bool

-- The global variables.
pub record Commands : Type 0 where
  pub format_sortie : List ℕ
  pub nbre_connexion_max : ℤ
  pub port : ℤ
  pub hostname : Option (List ℕ)

-- "%d"
abbrev pub default_commands : Commands
default_commands = record {
  format_sortie = 37 ∷ 100 ∷ [];
  nbre_connexion_max = pos 100;
  port = pos 0;
  hostname = none;
}

-- No byte is a colon.
unfoldable pub is_number : List ℕ → Bool
is_number [] = true
is_number (b ∷ rest) = let later : Bool = is_number rest in if b == 58 then false else later

-- An argument that is no option, `none` past the last one.
unfoldable pub take_argument : Atoi → Bool → Option (List ℕ) → Commands → Run Commands
take_argument atoi granted none c = fault
take_argument atoi granted (some text) c =
    if is_number text && not (is_zero (atoi text))
    then done (record c { port = atoi text })
    else if granted
    then done (record c { hostname = some text })
    else exit_failure

-- How far `index` moves on, and the variables.
unfoldable pub take_found : Atoi → Getopt → Found → ℕ → Commands → Run (ℕ × Commands)
take_found atoi call (found_o text) index c = done (2, record c { format_sortie = text })
take_found atoi call (found_m text) index c = done (2, record c { nbre_connexion_max = atoi text })
take_found atoi call other index c = do
  c1 ← take_argument atoi call.granted (get_elem? call.argv index) c
  done (1, c1)

-- The loop over the arguments, from the `n`-th call of `getopt` on; `none` when the fuel is used up.
unfoldable pub interpret : Atoi → (ℕ → Getopt) → ℕ → ℕ → ℕ → ℕ → Commands → Run (Option Commands)
interpret atoi calls zero n argc index c = done (if ltb index argc then none else some c)
interpret atoi calls (suc fuel) n argc index c =
    if ltb index argc
    then take_found atoi (calls n) (calls n).found index c
      >>= (λ (moved, c1). interpret atoi calls fuel (n + 1) argc (index + moved) c1)
    else done (some c)

-- The list behind the new head. Nothing is written to the head: it is NULL, the empty list, if the
-- memory that `malloc` gives is cleared, and else no list at all, `none`.
unfoldable pub create_connexion_list : Bool → Bool → Option (Option (List Connexion))
create_connexion_list granted cleared =
    if granted then some (if cleared then some [] else none) else none

-- What the system does outside the two loops; `cleared` is whether the memory for the head of the
-- list holds zeros.
pub record MainCalls : Type 0 where
  pub res : Option (List Address)
  pub sockets : SocketCalls
  pub list_granted : Bool
  pub cleared : Bool

-- How the program stands when the loop stands so: its status, EXIT_SUCCESS, or `none` while it is in
-- the loop; no result at all when the fuel of the loop is used up.
abbrev pub main_result : Outcome Server → Run (Option (Option ℕ × Server))
main_result out_of_fuel = done none
main_result (returned s) = done (some (some 0, s))
main_result (going s) = done (some (none, s))
main_result _ = fault

-- `main` behind the arguments. The descriptor may be -1.
unfoldable pub run_receiver :
    Crc32 → MainCalls → List Events → Commands → Run (Option (Option ℕ × Server))
run_receiver z sys passes c = do
  resolved ← real_address sys.res
  addr ← or_exit resolved
  (sfd, ends) ← create_socket sys.sockets (some addr) c.port none (negsuc 0)
  head ← or_exit (create_connexion_list sys.list_granted sys.cleared)
  main_result (call_loop z c.nbre_connexion_max head (on_socket sfd passes))

-- `main`; the loop over the arguments gets one unit of fuel for each of them.
unfoldable pub main :
    Crc32 → Atoi → (ℕ → Getopt) → ℕ → MainCalls → List Events → Run (Option (Option ℕ × Server))
main z atoi calls argc sys passes =
    if ltb argc 2
    then exit_failure
    else interpret atoi calls argc 0 argc 1 default_commands
      >>= (λ commands. elim commands [ none ↦ done none | some c ↦ run_receiver z sys passes c ])
