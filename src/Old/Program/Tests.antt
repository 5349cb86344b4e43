-- ===== src/Old/Program/Tests.antt =====
-- The earlier receiver called with `-m 0 :: 80`.
use lingi1341_trtp_gr.Base.{
  ℕ, ◌+◌, ◌*◌, ◌≡◌, ◌≢◌, refl, arith, true, none, some, List, [], ◌∷◌, ◌++◌, length, inr, false,
}
use lingi1341_trtp_gr.Base.Run.{done, fault}
use lingi1341_trtp_gr.Old.Loop.State.{Events, at_start}
use lingi1341_trtp_gr.Old.Program.{
  Found, found_m, other, Getopt, MainCalls, default_commands, is_number, interpret, main,
}
use lingi1341_trtp_gr.Old.Program.Options.{Finishes}
use lingi1341_trtp_gr.Old.Program.Reads.{found_at, Reads, AreTold}
use lingi1341_trtp_gr.Old.Program.Ending.{main_ends}
use lingi1341_trtp_gr.Old.Program.Runs.{main_deaf}
use lingi1341_trtp_gr.Old.Program.Refusing.{main_refuses}
use lingi1341_trtp_gr.Old.Loop.Refusing.{all_arrivals}
use lingi1341_trtp_gr.Old.Program.Newcomer.{Admits}
use lingi1341_trtp_gr.Old.Program.Faulting.{main_faults}
use lingi1341_trtp_gr.Packet.Encode.Layout.{encoding}
use lingi1341_trtp_gr.Samples.{checksum, hi_packet, hi_bytes}
use lingi1341_trtp_gr.Samples.Printing.{to_number}

abbrev options : List Found
options = found_m (48 ∷ []) ∷ []

-- "::" and "80"
abbrev host_text : List ℕ
host_text = 58 ∷ 58 ∷ []

abbrev port_text : List ℕ
port_text = 56 ∷ 48 ∷ []

-- "r", "-m" and "0"
abbrev words : List (List ℕ)
words = (114 ∷ []) ∷ (45 ∷ 109 ∷ []) ∷ (48 ∷ []) ∷ []

abbrev calls : ℕ → Getopt
calls n = record {
  found = found_at options n;
  argv = words ++ (host_text ∷ port_text ∷ []);
  granted = true;
}

calls-Reads : Reads calls options host_text port_text
calls-Reads = record {
  are_options = (tt, tt);
  found = λ n. refl;
  words = words;
  two_each = omega arith;
  left = λ n _. refl;
  granted = λ n. refl;
}

texts-AreTold : AreTold to_number host_text port_text
unfolding is_number
texts-AreTold = record { no_port = refl; a_port = refl }

abbrev sys : MainCalls
sys = record {
  res = some (record { host = 1; sin6_port = 0 } ∷ []);
  sockets = record { socket = some 3; bound = true; connected = true };
  list_granted = true;
  cleared = true;
}

abbrev fine : List (ℕ × List ℕ) → Events
fine arrivals = record {
  arrivals = arrivals;
  polled = true;
  peeked = true;
  opening = record {
    node_granted = true;
    connexion_granted = true;
    list = 200;
    formatted = true;
    opened = true;
    fichier = some 5;
  };
  list_granted = true;
  has_read = true;
  packet_granted = true;
  payload_granted = true;
  writes = λ _. some 512;
  reply_granted = true;
  buf_granted = true;
  has_sent = true;
}

abbrev passes : List Events
passes = fine ((7, hi_bytes) ∷ []) ∷ []

main_ends_example :
    Finishes (interpret to_number calls 5 0 5 1 default_commands)
    × (main checksum to_number calls 5 sys passes ≢ done none)
main_ends_example = main_ends checksum to_number calls 5 sys passes (λ n. refl)

main_refuses_example :
    main checksum to_number calls (3 + 2 * length options) sys passes
    ≡ done (some (none, record at_start { queue = all_arrivals passes }))
main_refuses_example =
    main_refuses checksum to_number calls options host_text port_text sys
      (record { host = 1; sin6_port = 0 }) [] 3 passes calls-Reads texts-AreTold refl refl refl refl
      refl refl ((refl, refl), tt)

-- The socket is made, but not bound.
abbrev unbound : MainCalls
unbound = record sys { sockets = record { socket = some 3; bound = false; connected = true } }

main_deaf_example :
    main checksum to_number calls (3 + 2 * length options) unbound passes
    ≡ done (some (none, at_start))
main_deaf_example =
    main_deaf checksum to_number calls options host_text port_text unbound
      (record { host = 1; sin6_port = 0 }) [] passes calls-Reads texts-AreTold refl refl (inr refl)
      (refl, tt)

-- `:: 80`, with no option.
abbrev plain_calls : ℕ → Getopt
plain_calls n = record {
  found = other;
  argv = ((114 ∷ []) ∷ []) ++ (host_text ∷ port_text ∷ []);
  granted = true;
}

plain_calls-Reads : Reads plain_calls [] host_text port_text
plain_calls-Reads = record {
  are_options = tt;
  found = λ n. refl;
  words = (114 ∷ []) ∷ [];
  two_each = omega arith;
  left = λ n _. refl;
  granted = λ n. refl;
}

first_arrives : Admits (fine ((7, encoding checksum hi_packet) ∷ []))
first_arrives = record {
  polled = refl;
  peeked = refl;
  node = refl;
  connexion = refl;
  formatted = refl;
  opened = refl;
  fd = 5;
  fichier = refl;
  has_read = refl;
  packet = refl;
  payload = refl;
  buffer = refl;
}

main_faults_example :
    main checksum to_number plain_calls
      (3 + 2 * length {A = Found} [])
      sys
      ((fine [] ∷ []) ++ (fine ((7, encoding checksum hi_packet) ∷ []) ∷ []))
    ≡ fault
main_faults_example =
    main_faults checksum to_number plain_calls [] host_text port_text sys
      (record { host = 1; sin6_port = 0 }) [] 3 (fine [] ∷ [])
      (fine ((7, encoding checksum hi_packet) ∷ [])) [] 7 hi_packet [] plain_calls-Reads
      texts-AreTold refl refl refl refl refl ((refl, refl), tt) first_arrives
      (record {
        valid = omega arith;
        data_type = refl;
        whole = refl;
        has_payload = (72 ∷ 105 ∷ 0 ∷ [], refl);
      })
      refl
