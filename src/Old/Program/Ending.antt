-- ===== src/Old/Program/Ending.antt =====
-- The earlier receiver's program ends (old/src/receiver.c).
use lingi1341_trtp_gr.Base.{
  ℕ, ◌≢◌, refl, arith, Bool, true, false, Option, none, some, List, ltb, if◌then◌else◌,
}
use mathlib.Core.Path.{subst}
use lingi1341_trtp_gr.Base.Int.{negsuc}
use lingi1341_trtp_gr.Base.Run.{Run, exit_failure, done, fault, ◌>>=◌, or_exit}
use lingi1341_trtp_gr.Zlib.{Crc32}
use lingi1341_trtp_gr.Command.{Atoi}
use lingi1341_trtp_gr.Old.Socket.{real_address, create_socket}
use lingi1341_trtp_gr.Old.Loop.State.{Server, Events, Outcome, out_of_fuel, returned, going}
use lingi1341_trtp_gr.Old.Loop.Called.{call_loop_ends}
use lingi1341_trtp_gr.Old.Program.{
  Getopt, Commands, MainCalls, default_commands, interpret, create_connexion_list, main_result,
  run_receiver, main,
}
use lingi1341_trtp_gr.Old.Program.Options.{Keeps, Finishes, interpret-Finishes}

-- The fuel of a result is not used up.
abbrev HasFuel : {A : Type 0} → Run (Option A) → Type 0
HasFuel (done none) = ⊥
HasFuel _ = Unit {0}

main_result-HasFuel : (o : Outcome Server) → o ≢ out_of_fuel → HasFuel (main_result o)
main_result-HasFuel (returned s) h = tt
main_result-HasFuel (going s) h = tt
main_result-HasFuel out_of_fuel h = h refl
main_result-HasFuel _ h = tt

HasFuel-bind :
    {A B : Type 0} (x : Run A) (f : A → Run (Option B))
    → ((a : A) → HasFuel (f a))
    → HasFuel (x >>= f)
HasFuel-bind fault f h = tt
HasFuel-bind exit_failure f h = tt
HasFuel-bind (done a) f h = h a

run_receiver-HasFuel :
    (z : Crc32) (sys : MainCalls) (passes : List Events) (c : Commands)
    → HasFuel (run_receiver z sys passes c)
unfolding run_receiver
run_receiver-HasFuel z sys passes c = HasFuel-bind (real_address sys.res) _ (λ resolved.
    HasFuel-bind (or_exit resolved) _ (λ addr.
      HasFuel-bind (create_socket sys.sockets (some addr) c.port none (negsuc 0)) _ (λ fd.
        HasFuel-bind (or_exit (create_connexion_list sys.list_granted sys.cleared)) _
          (λ head. main_result-HasFuel _ (call_loop_ends z c.nbre_connexion_max head _)))))

run_receiver-after :
    (z : Crc32) (sys : MainCalls) (passes : List Events) (x : Run (Option Commands))
    → Finishes x
    → HasFuel (
        x
        >>= (λ commands. elim commands [ none ↦ done none | some c ↦ run_receiver z sys passes c ]))
run_receiver-after z sys passes fault h = tt
run_receiver-after z sys passes exit_failure h = tt
run_receiver-after z sys passes (done none) h = elim h [ ]
run_receiver-after z sys passes (done (some c)) h = run_receiver-HasFuel z sys passes c

HasFuel-if :
    {A : Type 0} (b : Bool) (x y : Run (Option A))
    → HasFuel x
    → HasFuel y
    → HasFuel (if b then x else y)
HasFuel-if true x y hx hy = hx
HasFuel-if false x y hx hy = hy

main-HasFuel :
    (z : Crc32) (atoi : Atoi) (calls : ℕ → Getopt) (argc : ℕ) (sys : MainCalls)
    (passes : List Events)
    → Finishes (interpret atoi calls argc 0 argc 1 default_commands)
    → HasFuel (main z atoi calls argc sys passes)
unfolding main
main-HasFuel z atoi calls argc sys passes finishes =
    HasFuel-if (ltb argc 2) exit_failure _ tt (
      run_receiver-after z sys passes (interpret atoi calls argc 0 argc 1 default_commands)
        finishes)

-- The loop over the arguments ends, and the program never uses up its fuel. Whatever `getopt` finds
-- in a call, in whatever order it leaves the arguments, as long as it keeps their number, and
-- whatever the system does, one turn for each argument is enough for the loop over the arguments: it
-- ends with values for the variables or with EXIT_FAILURE, and reads no argument past the last one;
-- and so the program has a result after the passes that it is given.
pub main_ends :
    (z : Crc32) (atoi : Atoi) (calls : ℕ → Getopt) (argc : ℕ) (sys : MainCalls)
    (passes : List Events)
    → Keeps calls argc
    → Finishes (interpret atoi calls argc 0 argc 1 default_commands)
      × (main z atoi calls argc sys passes ≢ done none)
main_ends z atoi calls argc sys passes keeps =
    let finishes : Finishes (interpret atoi calls argc 0 argc 1 default_commands) =
      interpret-Finishes atoi calls argc 0 argc 1 default_commands keeps (omega arith) in
    (finishes, λ out. subst HasFuel out (main-HasFuel z atoi calls argc sys passes finishes))
