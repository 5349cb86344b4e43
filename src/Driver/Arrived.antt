-- ===== src/Driver/Arrived.antt =====
-- The rounds of the receiver that some datagrams arrive in, one after the other.
use lingi1341_trtp_gr.Base.{
  ℕ, zero, suc, ◌≤◌, ◌≡◌, refl, arith, true, some, List, [], ◌++◌, map, length,
}
use lingi1341_trtp_gr.Base.Int.{pos}
use lingi1341_trtp_gr.Base.Run.{done}
use lingi1341_trtp_gr.Zlib.{Crc32}
use lingi1341_trtp_gr.Packet.{Pkt}
use lingi1341_trtp_gr.Packet.Encode.Layout.{encoding}
use lingi1341_trtp_gr.Transfer.Send.{granted_send}
use lingi1341_trtp_gr.Receiver.State.{Receiver, Round}
use lingi1341_trtp_gr.Receiver.Loop.{selective_repeat_receiver}
use lingi1341_trtp_gr.Receiver.InOrder.{Synced}
use lingi1341_trtp_gr.Receiver.Rounds.{first_file}
use lingi1341_trtp_gr.Sender.{hello}

-- A round of the receiver in which every call succeeds and `datagram` arrives, in front of `junk`.
abbrev pub datagram_round : List ℕ → List ℕ → Round
datagram_round junk datagram = record {
  peeked = true;
  packet_granted = true;
  payload_granted = true;
  bytes = datagram ++ junk;
  len = pos (length datagram);
  created = done first_file;
  null_shown = true;
  ack_granted = true;
  ack_sent = granted_send;
}

-- `n` times the text.
abbrev pub hellos : ℕ → List ℕ
hellos zero = []
hellos (suc n) = hello ++ hellos n

abbrev pub datagrams : Crc32 → List (Pkt × List ℕ) → List (List ℕ)
datagrams z ps = map (λ x. encoding z x.0) ps

pub receiver_waits : (z : Crc32) (r : Receiver) → selective_repeat_receiver z [] r ≡ done r
unfolding selective_repeat_receiver
receiver_waits z r = refl

pub Synced-file : (n : ℕ) (out : List ℕ) (r : Receiver) → Synced n out r → 1 ≤ n → r.file ≡ some out
Synced-file n out r s h = ground (arith, s.file_is)
