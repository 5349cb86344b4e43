-- ===== src/Receiver/Tests.antt =====
-- Rounds of the receiver at concrete datagrams.
use lingi1341_trtp_gr.Base.{
  ℕ, zero, suc, All, replicate, ◌%◌, ◌≡◌, ◌≢◌, refl, arith, true, some, [], ◌∷◌, ◌++◌,
}
use lingi1341_trtp_gr.Base.Int.{pos}
use lingi1341_trtp_gr.Base.Run.{done, fault}
use lingi1341_trtp_gr.Base.Bytes.{IsByte, le32}
use lingi1341_trtp_gr.Base.Leaves.{Leaves}
use lingi1341_trtp_gr.Packet.Varuint.RoundTrip.{varuint}
use lingi1341_trtp_gr.Packet.{Pkt}
use lingi1341_trtp_gr.Packet.Encode.Layout.{encoding, header_crc, header}
use lingi1341_trtp_gr.Packet.Decode.Message.{message}
use lingi1341_trtp_gr.Transfer.Create.{ack_packet}
use lingi1341_trtp_gr.Transfer.EndToEnd.{received_data}
use lingi1341_trtp_gr.Window.{is_in_window}
use lingi1341_trtp_gr.Receiver.State.{Receiver, Round, start, print_data}
use lingi1341_trtp_gr.Receiver.Loop.{round, selective_repeat_receiver}
use lingi1341_trtp_gr.Receiver.InOrder.{Synced}
use lingi1341_trtp_gr.Receiver.Rounds.{IsShown, message_round, message_round-Smooth}
use lingi1341_trtp_gr.Receiver.Transfer.{rounds_of, contents, replies, count, transfer_arrives}
use lingi1341_trtp_gr.Receiver.Faults.{reordering_faults, damage_faults}
use lingi1341_trtp_gr.Samples.{checksum, hi_packet, yo_packet, hi_bytes, last_packet}
use lingi1341_trtp_gr.Receiver.Standing.{Stands}
use lingi1341_trtp_gr.Receiver.Reachable.{reachable_states}

hi-IsShown : IsShown hi_packet
unfolding print_data
hi-IsShown = refl

transfer_arrives_example :
    (r : Receiver) × (selective_repeat_receiver checksum
        (rounds_of checksum ((hi_packet, 1 ∷ []) ∷ [])
          ++ (message_round checksum last_packet ((0 ∷ 0 ∷ 0 ∷ 1 ∷ []) ++ []) ∷ []))
        start
      ≡ done r)
    × (r.ended ≡ true)
    × (r.file ≡ some (contents ((hi_packet, 1 ∷ []) ∷ [])))
    × (r.acks
        ≡ replies checksum 0 ((hi_packet, 1 ∷ []) ∷ [])
          ++ (encoding checksum
                (ack_packet 3 (count ((hi_packet, 1 ∷ []) ∷ []) 0 % 256) last_packet.timestamp)
              ∷ []))
transfer_arrives_example =
    transfer_arrives checksum ((hi_packet, 1 ∷ []) ∷ []) last_packet (0 ∷ 0 ∷ 0 ∷ 1 ∷ []) [] []
      (
        record {
          valid = omega arith;
          data_type = refl;
          whole = refl;
          has_payload = (72 ∷ 105 ∷ 0 ∷ [], refl);
        },
        hi-IsShown,
        refl,
        tt,
      )
      (record {
        valid = omega arith;
        data_type = refl;
        whole = refl;
        no_payload = refl;
        empty = refl;
      })
      refl refl

start-Synced : Synced 0 [] start
start-Synced = ground arith

-- The packets as they are received.
abbrev hi_read : Pkt
hi_read = record hi_packet {
  crc1 = header_crc checksum hi_packet;
  crc2 = checksum.crc32 (some (72 ∷ 105 ∷ 0 ∷ []));
}

abbrev yo_read : Pkt
yo_read = record yo_packet {
  crc1 = header_crc checksum yo_packet;
  crc2 = checksum.crc32 (some (121 ∷ 111 ∷ 0 ∷ []));
}

inside : is_in_window 1 0 2 ≡ true
unfolding is_in_window
inside = refl

reordering_faults_example :
    selective_repeat_receiver checksum
      (message_round checksum yo_packet [] ∷ message_round checksum hi_packet [] ∷ [])
      start
    ≡ fault
reordering_faults_example =
    reordering_faults checksum (message_round checksum yo_packet [])
      (message_round checksum hi_packet []) [] 0 [] yo_read hi_read start start-Synced
      (message_round-Smooth checksum yo_packet []) (message_round-Smooth checksum hi_packet [])
      (received_data checksum yo_packet (121 ∷ 111 ∷ 0 ∷ []) [] (omega arith) refl refl refl)
      (received_data checksum hi_packet (72 ∷ 105 ∷ 0 ∷ []) [] (omega arith) refl refl refl) refl
      inside (omega arith) (omega arith) (omega arith) refl refl (omega arith)

abbrev damaged : Round
damaged = record (message_round checksum hi_packet []) {
  bytes = message hi_packet 99 (72 ∷ 105 ∷ 0 ∷ 0 ∷ 0 ∷ 0 ∷ 177 ∷ []);
  len = pos 18;
}

hi_crc : header_crc checksum hi_packet ≡ 80
unfolding header_crc header varuint le32
hi_crc = refl

wrong : ◌≢◌ {A = ℕ} 99 (header_crc checksum hi_packet)
wrong = ground (arith, hi_crc)

damage_faults_example : round checksum damaged start ≡ fault
damage_faults_example =
    damage_faults checksum damaged 0 [] hi_packet 99 18 (72 ∷ 105 ∷ 0 ∷ 0 ∷ 0 ∷ 0 ∷ 177 ∷ []) start
      start-Synced
      (record {
        peeks = refl;
        has_packet = refl;
        has_payload = refl;
        named = (1, 48 ∷ []);
        opens = refl;
        shows = refl;
        has_ack = refl;
        sends = refl;
      })
      (omega arith) refl refl (omega arith) refl (omega arith) wrong refl (omega arith) refl

-- A round whose receive buffer holds the bytes of "Hi".
abbrev buffered : Round
buffered = record (message_round checksum hi_packet []) {
  bytes = hi_bytes ++ replicate 510 0;
  len = pos 18;
}

All-zeros : (n : ℕ) → All IsByte (replicate n 0)
All-zeros zero = tt
All-zeros (suc n) = (omega arith, All-zeros n)

reachable_states_example : Leaves Stands (selective_repeat_receiver checksum (buffered ∷ []) start)
reachable_states_example = reachable_states checksum (buffered ∷ []) (
  (
    omega arith,
    (
      omega arith,
      (
        omega arith,
        (
          omega arith,
          (
            omega arith,
            (
              omega arith,
              (
                omega arith,
                (
                  omega arith,
                  (
                    omega arith,
                    (
                      omega arith,
                      (
                        omega arith,
                        (
                          omega arith,
                          (
                            omega arith,
                            (
                              omega arith,
                              (
                                omega arith,
                                (
                                  omega arith,
                                  (omega arith, (omega arith, (omega arith, All-zeros 510))),
                                ),
                              ),
                            ),
                          ),
                        ),
                      ),
                    ),
                  ),
                ),
              ),
            ),
          ),
        ),
      ),
    ),
  ),
  tt,
)
