-- ===== src/Samples.antt =====
-- Values for the tests: a checksum in place of the CRC, and packets.
pub mod Printing
pub mod Turns
use lingi1341_trtp_gr.Base.{ℕ, ◌+◌, ◌%◌, ◌^◌, ◌<◌, refl, arith, Option, none, some, List, [], ◌∷◌}
use lingi1341_trtp_gr.Zlib.{Crc32}
use lingi1341_trtp_gr.Packet.{Pkt, zeroed}

abbrev pub sum_bytes : List ℕ → ℕ
sum_bytes [] = 0
sum_bytes (b ∷ bs) = b + sum_bytes bs

abbrev pub checksum_of : Option (List ℕ) → ℕ
checksum_of none = 0
checksum_of (some bytes) = sum_bytes bytes % 2 ^ 32

pub checksum_of-lt : (buf : Option (List ℕ)) → checksum_of buf < 2 ^ 32
checksum_of-lt none = omega arith
checksum_of-lt (some bytes) = omega arith

abbrev pub checksum : Crc32
checksum = record { crc32 = checksum_of; crc32-lt = checksum_of-lt; crc32_null = refl }

-- "Hi" with its final zero, as the first packet of a transfer, and what follows it.
abbrev pub hi_packet : Pkt
hi_packet = record zeroed {
  window = 3;
  type = 1;
  length = 3;
  timestamp = 0x01020304;
  payload = some (72 ∷ 105 ∷ 0 ∷ []);
}

abbrev pub yo_packet : Pkt
yo_packet = record zeroed {
  window = 3;
  type = 1;
  length = 3;
  seqnum = 1;
  timestamp = 7;
  payload = some (121 ∷ 111 ∷ 0 ∷ []);
}

abbrev pub last_packet : Pkt
last_packet = record zeroed { window = 3; type = 1; seqnum = 1; timestamp = 8 }

abbrev pub ack_sample : Pkt
ack_sample = record zeroed { window = 3; type = 2; seqnum = 5; timestamp = 9 }

-- The bytes of `hi_packet` under the checksum, and of `last_packet`.
abbrev pub hi_bytes : List ℕ
hi_bytes = 0x43 ∷ 3 ∷ 0 ∷ 4 ∷ 3 ∷ 2 ∷ 1 ∷ 0 ∷ 0 ∷ 0 ∷ 80 ∷ 72 ∷ 105 ∷ 0 ∷ 0 ∷ 0 ∷ 0 ∷ 177 ∷ []

abbrev pub last_bytes : List ℕ
last_bytes = 0x43 ∷ 0 ∷ 1 ∷ 8 ∷ 0 ∷ 0 ∷ 0 ∷ 0 ∷ 0 ∷ 0 ∷ 76 ∷ []
