-- ===== src/Driver/Ordered.antt =====
-- The packets of `window_test` (src/test.c) and the receiver's loop (src/receiver.c).
use lingi1341_trtp_gr.Base.{
  ℕ, zero, suc, ◌+◌, ◌%◌, ◌≤◌, ◌≡◌, refl, sym, ap, ◌∙◌, arith, false, some, List, [], ◌∷◌, ◌++◌,
  map, length, append-nil,
}
use lingi1341_trtp_gr.Base.Run.{done}
use lingi1341_trtp_gr.Zlib.{Crc32}
use lingi1341_trtp_gr.Packet.{Pkt}
use lingi1341_trtp_gr.Receiver.State.{Receiver, start, print_data}
use lingi1341_trtp_gr.Receiver.Loop.{selective_repeat_receiver}
use lingi1341_trtp_gr.Receiver.Rounds.{message_round, IsData}
use lingi1341_trtp_gr.Receiver.Transfer.{
  start-Synced, InOrder, rounds_arrive, rounds_of, count, contents, replies,
}
use lingi1341_trtp_gr.Sender.{hello}
use lingi1341_trtp_gr.Driver.{hello_text, send_texts, window_test}
use lingi1341_trtp_gr.Driver.Arrived.{
  datagram_round, hellos, datagrams, receiver_waits, Synced-file,
}
use lingi1341_trtp_gr.Driver.Sent.{
  all_sent, text_packet, IsText, text_packet-IsValid, send_text-sends,
}

hello_text-IsText : IsText hello_text
hello_text-IsText = record { bytes = ground arith; fits = omega arith }

-- `m` packets from the `n`-th on, each in front of `junk`.
abbrev text_packets : List ℕ → ℕ → ℕ → List (Pkt × List ℕ)
text_packets junk n zero = []
text_packets junk n (suc m) = (text_packet hello_text n, junk) ∷ text_packets junk (suc n) m

record Texts (z : Crc32) (junk : List ℕ) (n m : ℕ) : Type 0 where
  in_order : InOrder n (text_packets junk n m)
  rounds :
      rounds_of z (text_packets junk n m)
      ≡ map (datagram_round junk) (datagrams z (text_packets junk n m))
  said : contents (text_packets junk n m) ≡ hellos m
  answers : length (replies z n (text_packets junk n m)) ≡ m
  counted : count (text_packets junk n m) n ≡ n + m
  all_out : send_texts z (λ _. all_sent) m n ≡ done (datagrams z (text_packets junk n m))

text_packets-Texts : (z : Crc32) (junk : List ℕ) (n m : ℕ) → Texts z junk n m
unfolding send_texts
text_packets-Texts z junk n zero = record {
  in_order = tt;
  rounds = refl;
  said = refl;
  answers = refl;
  counted = omega arith;
  all_out = refl;
}
text_packets-Texts z junk n (suc m) =
    let p : Pkt = text_packet hello_text n in
    let later : Texts z junk (suc n) m = text_packets-Texts z junk (suc n) m in
    let d : IsData p = record {
      valid = text_packet-IsValid hello_text n hello_text-IsText;
      data_type = refl;
      whole = refl;
      has_payload = (hello, refl);
    } in
    record {
      in_order = (d, unfold print_data in refl, refl, later.in_order);
      rounds = ap (λ l. message_round z p junk ∷ l) later.rounds;
      said = ap (λ l. hello ++ l) later.said;
      answers = ap suc later.answers;
      counted = omega (arith, later.counted);
      all_out = ground (arith, send_text-sends z hello_text n hello_text-IsText, later.all_out);
    }

zero_plus : (m : ℕ) → 0 + m ≡ m
zero_plus m = omega arith

-- The driver's packets all arrive, however many, also past the end of the sequence numbers. When
-- every call succeeds, and the datagrams that the loop of `window_test` sends when it makes `m`
-- packets, one or more, arrive one after the other in the receive buffer, in front of the same
-- bytes, the receiver writes the text `m` times to its file and nothing else, sends `m`
-- acknowledgements, and is left, not at its end, with a window that starts at `m` modulo 256.
pub texts_arrive :
    (z : Crc32) (junk : List ℕ) (m : ℕ)
    → 1 ≤ m
    → (ds : List (List ℕ)) × (r : Receiver) × (send_texts z (λ _. all_sent) m 0 ≡ done ds)
      × (selective_repeat_receiver z (map (datagram_round junk) ds) start ≡ done r)
      × (r.file ≡ some (hellos m))
      × (length r.acks ≡ m)
      × (r.window_start ≡ m % 256)
      × (r.ended ≡ false)
texts_arrive z junk m some_packets =
    let t : Texts z junk 0 m = text_packets-Texts z junk 0 m in
    let ps : List (Pkt × List ℕ) = text_packets junk 0 m in
    let (r, receives, synced, acks) = rounds_arrive z ps [] 0 [] start t.in_order start-Synced in
    (
      datagrams z ps,
      r,
      t.all_out,
      ap (λ l. selective_repeat_receiver z l start)
            (sym t.rounds ∙ sym (append-nil (rounds_of z ps)))
          ∙ receives
          ∙ receiver_waits z r,
      Synced-file (count ps 0) (contents ps) r synced (omega (arith, t.counted, some_packets))
          ∙ ap some t.said,
      ap length acks ∙ t.answers,
      synced.low ∙ ap (λ k. k % 256) (t.counted ∙ zero_plus m),
      synced.going,
    )

-- `window_test` itself, with 258 packets.
window_test_arrives :
    (z : Crc32) (junk : List ℕ)
    → (ds : List (List ℕ)) × (r : Receiver) × (window_test z (λ _. all_sent) ≡ done ds)
      × (selective_repeat_receiver z (map (datagram_round junk) ds) start ≡ done r)
      × (r.file ≡ some (hellos 258))
      × (length r.acks ≡ 258)
      × (r.window_start ≡ 2)
      × (r.ended ≡ false)
unfolding window_test
window_test_arrives z junk = texts_arrive z junk 258 (omega arith)
