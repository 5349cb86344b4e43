-- ===== src/Program/Receives.antt =====
-- The receiver's program, from its command line to its exit (src/receiver.c).
use lingi1341_trtp_gr.Base.{
  ℕ, ◌%◌, ◌<◌, ◌≡◌, ◌≢◌, refl, ap, ◌∙◌, arith, true, false, none, some, List, [], ◌∷◌, ◌++◌, map,
  length, All, Bool-cases, inl, inr,
}
use lingi1341_trtp_gr.Base.Int.{pos}
use lingi1341_trtp_gr.Base.Run.{fault, done, ◌>>=◌}
use lingi1341_trtp_gr.Zlib.{Crc32}
use lingi1341_trtp_gr.Packet.{Pkt, pkt_new}
use lingi1341_trtp_gr.Packet.Encode.Layout.{encoding, header_crc}
use lingi1341_trtp_gr.Transfer.Create.{ack_packet}
use lingi1341_trtp_gr.Receiver.State.{Receiver, Round, start, print_data}
use lingi1341_trtp_gr.Window.{is_in_window}
use lingi1341_trtp_gr.Transfer.EndToEnd.{received_data}
use lingi1341_trtp_gr.Receiver.Steps.{in_sequence, open_file}
use lingi1341_trtp_gr.Receiver.Loop.{allocate, accept, handle, selective_repeat_receiver, round}
use lingi1341_trtp_gr.Receiver.Rounds.{message_round, IsData, IsLast}
use lingi1341_trtp_gr.Receiver.Transfer.{
  InOrder, contents, replies, rounds_of, count, transfer_arrives,
}
use lingi1341_trtp_gr.Command.{
  Atoi, Printf, is_zero, ReceiverOption, ReceiverOptions, SenderOptions,
}
use lingi1341_trtp_gr.Command.Parsed.{last_o, Numbers, parse_commands_lem}
use lingi1341_trtp_gr.Command.Named.{Prints, create_file_names}
use lingi1341_trtp_gr.Program.{
  Address, Calls, resolve, create_socket, bind_socket, first_created, with_file, status_of,
  receiver_main,
}
use lingi1341_trtp_gr.Program.Opened.{Opens, loop_any}

-- Every call of the system succeeds.
pub record Granted (sys : Calls) : Type 0 where
  pub first : Address
  pub others : List Address
  pub fd : ℕ
  pub memory : sys.granted ≡ true
  pub found : sys.results ≡ some (first ∷ others)
  pub made : sys.socket ≡ some fd
  pub bound : sys.bound ≡ true
  pub opened : sys.opened ≡ true

-- A hostname that fits into its 8 bytes, and a port that is not 0.
pub record IsServer (atoi : Atoi) (hostname port : List ℕ) : Type 0 where
  pub short : length hostname < 8
  pub some_port : is_zero (atoi port) ≡ false

pub receiver_main_lem :
    (z : Crc32) (atoi : Atoi) (printf : Printf) (sys : Calls) (options : List ReceiverOption)
    (hostname port : List ℕ) (c : ReceiverOptions) (rounds : List Round)
    → Granted sys
    → Numbers atoi options
    → IsServer atoi hostname port
    → receiver_main z atoi printf sys options (hostname ∷ port ∷ []) c rounds ≡ (
        selective_repeat_receiver z
          (map (with_file (first_created printf true (last_o options c.format))) rounds)
          start
        >>= (λ r. done (status_of r.ended, r)))
unfolding receiver_main resolve create_socket bind_socket
receiver_main_lem z atoi printf sys options hostname port c rounds g numbers server = ground (
  arith,
  g.memory,
  g.found,
  g.made,
  g.bound,
  g.opened,
  server.short,
  server.some_port,
  (parse_commands_lem atoi options [] hostname port c unset numbers tt).0,
)
  where
    unset : SenderOptions
    unset = record { filename = none; hostname = none; port = pos 0 }

rounds-Opens :
    (z : Crc32) (ps : List (Pkt × List ℕ)) (p : Pkt) (junk : List ℕ)
    → All Opens (rounds_of z ps ++ (message_round z p junk ∷ []))
rounds-Opens z [] p junk = (((1, 48 ∷ []), refl), tt)
rounds-Opens z ((q, behind) ∷ ps) p junk = (((1, 48 ∷ []), refl), rounds-Opens z ps p junk)

-- The receiver's program carries a transfer to its end. It is called with a hostname shorter than
-- 8 bytes, a port that is not 0, no `-m` whose number is 0, and a format with one `%d` and no
-- other `%`, from `-o` or by default, and every system call succeeds. `printf` puts a number's
-- digits in the place of `%d`, and the C library prints something for `%s` and NULL. Then over the
-- packets of a transfer in order, each with a zero byte in its payload, and the packet of length 0
-- that ends it, with at least four bytes behind it in the receive buffer, it opens its file and
-- returns EXIT_SUCCESS, with the payloads in order in the file and nothing else, and one
-- acknowledgement sent for each packet.
pub receiver_main_transfers :
    (z : Crc32) (atoi : Atoi) (printf : Printf) (digits : ℕ → List ℕ) (sys : Calls)
    (options : List ReceiverOption) (hostname port before after : List ℕ) (c : ReceiverOptions)
    (ps : List (Pkt × List ℕ)) (p : Pkt) (word tail : List ℕ)
    → Granted sys
    → Numbers atoi options
    → IsServer atoi hostname port
    → Prints printf digits
    → last_o options c.format ≡ some (before ++ (37 ∷ 100 ∷ after))
    → All (λ b. b ≢ 37) before
    → All (λ b. b ≢ 37) after
    → InOrder 0 ps
    → IsLast p
    → length word ≡ 4
    → p.seqnum ≡ count ps 0 % 256
    → (r : Receiver) × (receiver_main z atoi printf sys options
          (hostname ∷ port ∷ [])
          c
          (rounds_of z ps ++ (message_round z p (word ++ tail) ∷ []))
        ≡ done (some 0, r))
      × (r.file ≡ some (contents ps))
      × (r.acks ≡ replies z 0 ps ++ (encoding z (ack_packet 3 (count ps 0 % 256) p.timestamp) ∷ []))
receiver_main_transfers z atoi printf digits sys options hostname port before after c ps p word tail
      g numbers server prints format plain_before plain_after order last four seq =
    let rounds : List Round = rounds_of z ps ++ (message_round z p (word ++ tail) ∷ []) in
    let name : List ℕ = before ++ (digits 0 ++ after) in
    let created : first_created printf true (last_o options c.format) ≡ done (1, some name) =
      ap (first_created printf true) format
      ∙ (create_file_names printf digits true before after 0 prints plain_before plain_after).0 in
    let (r, runs, ended, file, acks) = transfer_arrives z ps p word tail [] order last four seq in
    let same = loop_any (1, name) z rounds start (rounds-Opens z ps p (word ++ tail)) in
    (
      r,
      ground (
        arith,
        receiver_main_lem z atoi printf sys options hostname port c rounds g numbers server,
        created,
        same,
        runs,
        ended,
      ),
      file,
      acks,
    )

first_inside : is_in_window 0 0 2 ≡ true
unfolding is_in_window
first_inside = refl

first_overflows :
    (z : Crc32) (p : Pkt) (junk : List ℕ)
    → IsData p
    → p.seqnum ≡ 0
    → round z (with_file fault (message_round z p junk)) start ≡ fault
unfolding round handle accept allocate pkt_new in_sequence open_file
first_overflows z p junk d seq =
    let (obj, held) = d.has_payload in
    let q : Pkt = record p { crc1 = header_crc z p; crc2 = z.crc32 (some obj) } in
    elim (Bool-cases (print_data true q)) [
      | inl shown ↦ ground (
        arith,
        seq,
        d.data_type,
        first_inside,
        shown,
        received_data z p obj junk d.valid d.data_type d.whole held,
      )
      | inr unshown ↦
          ground (arith, unshown, received_data z p obj junk d.valid d.data_type d.whole held)
    ]

-- A format with no directive breaks the receiver's program, though its command line is accepted:
-- when it is called with one, a hostname shorter than 8 bytes, a port that is not 0 and no `-m`
-- whose number is 0, and every other call succeeds, it faults in the round of the first data packet of a transfer, in
-- `create_file` if not before in `print_data`, whatever would come later.
pub receiver_main_overflows :
    (z : Crc32) (atoi : Atoi) (printf : Printf) (digits : ℕ → List ℕ) (sys : Calls)
    (options : List ReceiverOption) (hostname port format : List ℕ) (c : ReceiverOptions) (p : Pkt)
    (junk : List ℕ) (later : List Round)
    → Granted sys
    → Numbers atoi options
    → IsServer atoi hostname port
    → Prints printf digits
    → last_o options c.format ≡ some format
    → All (λ b. b ≢ 37) format
    → IsData p
    → p.seqnum ≡ 0
    → receiver_main z atoi printf sys options
        (hostname ∷ port ∷ [])
        c
        (message_round z p junk ∷ later)
      ≡ fault
unfolding selective_repeat_receiver
receiver_main_overflows z atoi printf digits sys options hostname port format c p junk later g
      numbers server prints given plain d seq =
    let created : first_created printf true (last_o options c.format) ≡ fault =
      ap (first_created printf true) given
      ∙ (create_file_names printf digits true format [] 0 prints plain tt).1 in
    ground (
      arith,
      receiver_main_lem z atoi printf sys options hostname port c (message_round z p junk ∷ later) g
          numbers server,
      created,
      first_overflows z p junk d seq,
    )
