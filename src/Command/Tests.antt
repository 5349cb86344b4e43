-- ===== src/Command/Tests.antt =====
-- Command lines and file names.
use lingi1341_trtp_gr.Base.{
  ◌+◌, ◌≡◌, refl, arith, true, none, some, [], ◌∷◌, ◌++◌, ltb, if◌then◌else◌,
}
use lingi1341_trtp_gr.Base.Int.{pos}
use lingi1341_trtp_gr.Base.Run.{done, fault}
use lingi1341_trtp_gr.Command.{
  ReceiverOptions, option_o, option_m, SenderOptions, option_f, parse_receiver_commands,
  parse_sender_commands, create_file,
}
use lingi1341_trtp_gr.Command.Parsed.{two_arguments, parse_commands_lem}
use lingi1341_trtp_gr.Command.Named.{create_file_names}
use lingi1341_trtp_gr.Samples.Printing.{to_number, decimal, print, print-Prints}

abbrev receiver_options : ReceiverOptions
receiver_options = record {
  format = some (37 ∷ 100 ∷ []);
  connections = pos 1;
  hostname = none;
  port = pos 0;
}

abbrev sender_options : SenderOptions
sender_options = record { filename = none; hostname = none; port = pos 0 }

-- "::1" and "80"
parse_commands_lem_example :
    (parse_receiver_commands to_number true
        (option_o (97 ∷ []) ∷ option_m (50 ∷ []) ∷ [])
        ((58 ∷ 58 ∷ 49 ∷ []) ∷ (56 ∷ 48 ∷ []) ∷ [])
        receiver_options
      ≡ two_arguments (58 ∷ 58 ∷ 49 ∷ []) (pos 80) (
        pos 1,
        record {
          format = some (97 ∷ []);
          connections = pos 2;
          hostname = some (58 ∷ 58 ∷ 49 ∷ []);
          port = pos 80;
        },
      ))
    × (parse_sender_commands to_number true
          (option_f (98 ∷ []) ∷ [])
          ((58 ∷ 58 ∷ 49 ∷ []) ∷ (56 ∷ 48 ∷ []) ∷ [])
          sender_options
        ≡ two_arguments (58 ∷ 58 ∷ 49 ∷ []) (pos 80) (
          pos 1,
          record { filename = some (98 ∷ []); hostname = some (58 ∷ 58 ∷ 49 ∷ []); port = pos 80 },
        ))
parse_commands_lem_example =
    parse_commands_lem to_number (option_o (97 ∷ []) ∷ option_m (50 ∷ []) ∷ [])
      (option_f (98 ∷ []) ∷ []) (58 ∷ 58 ∷ 49 ∷ []) (56 ∷ 48 ∷ []) receiver_options sender_options
      (refl, tt) (omega arith, tt)

-- "%d.x"
create_file_names_example :
    (create_file print true ([] ++ (37 ∷ 100 ∷ (46 ∷ 120 ∷ []))) 7 ≡ (
      if ltb 7 10
      then done (7 + 1, if true then some ([] ++ (decimal 7 ++ (46 ∷ 120 ∷ []))) else none)
      else fault))
    × (create_file print true [] 7 ≡ fault)
create_file_names_example =
    create_file_names print decimal true [] (46 ∷ 120 ∷ []) 7 print-Prints tt
      (omega arith, (omega arith, tt))
