-- ===== src/Program/Tests.antt =====
-- The programs on `::1`, port 80, and a format with and without a `%d`.
use lingi1341_trtp_gr.Base.{ℕ, ◌%◌, ◌≡◌, refl, arith, true, none, some, List, [], ◌∷◌, ◌++◌}
use lingi1341_trtp_gr.Base.Int.{pos}
use lingi1341_trtp_gr.Base.Run.{fault, done}
use lingi1341_trtp_gr.Packet.Encode.Layout.{encoding}
use lingi1341_trtp_gr.Transfer.Create.{ack_packet}
use lingi1341_trtp_gr.Receiver.State.{Receiver, print_data}
use lingi1341_trtp_gr.Receiver.Rounds.{message_round, IsData, IsLast, IsShown}
use lingi1341_trtp_gr.Receiver.Transfer.{contents, replies, rounds_of, count}
use lingi1341_trtp_gr.Command.{ReceiverOptions, option_o}
use lingi1341_trtp_gr.Program.{Calls, receiver_main}
use lingi1341_trtp_gr.Program.Receives.{
  Granted, IsServer, receiver_main_transfers, receiver_main_overflows,
}
use lingi1341_trtp_gr.Base.Leaves.{Leaves}
use lingi1341_trtp_gr.Samples.{checksum, hi_packet, last_packet}
use lingi1341_trtp_gr.Samples.Printing.{to_number, decimal, print, print-Prints}

abbrev calls : Calls
calls = record {
  granted = true;
  results = some (record { host = 1; sin6_port = 0 } ∷ []);
  socket = some 3;
  bound = true;
  opened = true;
}

calls-Granted : Granted calls
calls-Granted = record {
  first = record { host = 1; sin6_port = 0 };
  others = [];
  fd = 3;
  memory = refl;
  found = refl;
  made = refl;
  bound = refl;
  opened = refl;
}

-- "::1" and "80"
abbrev host_text : List ℕ
host_text = 58 ∷ 58 ∷ 49 ∷ []

abbrev port_text : List ℕ
port_text = 56 ∷ 48 ∷ []

server : IsServer to_number host_text port_text
server = record { short = omega arith; some_port = refl }

abbrev unset : ReceiverOptions
unset = record { format = some (37 ∷ 100 ∷ []); connections = pos 1; hostname = none; port = pos 0 }

hi_packet-IsData : IsData hi_packet
hi_packet-IsData = record {
  valid = omega arith;
  data_type = refl;
  whole = refl;
  has_payload = (72 ∷ 105 ∷ 0 ∷ [], refl);
}

last_packet-IsLast : IsLast last_packet
last_packet-IsLast = record {
  valid = omega arith;
  data_type = refl;
  whole = refl;
  no_payload = refl;
  empty = refl;
}

hi-IsShown : IsShown hi_packet
unfolding print_data
hi-IsShown = refl

-- "a%d"
receiver_main_transfers_example :
    (r : Receiver) × (receiver_main checksum to_number print calls
        (option_o (97 ∷ 37 ∷ 100 ∷ []) ∷ [])
        (host_text ∷ port_text ∷ [])
        unset
        (rounds_of checksum ((hi_packet, 1 ∷ []) ∷ [])
          ++ (message_round checksum last_packet ((0 ∷ 0 ∷ 0 ∷ 1 ∷ []) ++ []) ∷ []))
      ≡ done (some 0, r))
    × (r.file ≡ some (contents ((hi_packet, 1 ∷ []) ∷ [])))
    × (r.acks
        ≡ replies checksum 0 ((hi_packet, 1 ∷ []) ∷ [])
          ++ (encoding checksum
                (ack_packet 3 (count ((hi_packet, 1 ∷ []) ∷ []) 0 % 256) last_packet.timestamp)
              ∷ []))
receiver_main_transfers_example =
    receiver_main_transfers checksum to_number print decimal calls
      (option_o (97 ∷ 37 ∷ 100 ∷ []) ∷ []) host_text port_text (97 ∷ []) [] unset
      ((hi_packet, 1 ∷ []) ∷ []) last_packet (0 ∷ 0 ∷ 0 ∷ 1 ∷ []) [] calls-Granted tt server
      print-Prints refl (omega arith, tt) tt (hi_packet-IsData, hi-IsShown, refl, tt)
      last_packet-IsLast refl refl

-- "received_file", as in `tests/my_test.sh`
receiver_main_overflows_example :
    receiver_main checksum to_number print calls
      (option_o (114 ∷ 101 ∷ 99 ∷ 101 ∷ 105 ∷ 118 ∷ 101 ∷ 100 ∷ 95 ∷ 102 ∷ 105 ∷ 108 ∷ 101 ∷ [])
        ∷ [])
      (host_text ∷ port_text ∷ [])
      unset
      (message_round checksum hi_packet [] ∷ [])
    ≡ fault
receiver_main_overflows_example =
    receiver_main_overflows checksum to_number print decimal calls
      (option_o (114 ∷ 101 ∷ 99 ∷ 101 ∷ 105 ∷ 118 ∷ 101 ∷ 100 ∷ 95 ∷ 102 ∷ 105 ∷ 108 ∷ 101 ∷ [])
        ∷ [])
      host_text port_text
      (114 ∷ 101 ∷ 99 ∷ 101 ∷ 105 ∷ 118 ∷ 101 ∷ 100 ∷ 95 ∷ 102 ∷ 105 ∷ 108 ∷ 101 ∷ []) unset
      hi_packet [] [] calls-Granted tt server print-Prints refl (ground arith) hi_packet-IsData refl
