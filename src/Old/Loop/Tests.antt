-- ===== src/Old/Loop/Tests.antt =====
-- Passes of the earlier receiver on concrete datagrams.
use lingi1341_trtp_gr.Base.{ℕ, ◌-◌, ◌≡◌, ◌≢◌, refl, arith, true, none, some, List, [], ◌∷◌, ◌++◌}
use lingi1341_trtp_gr.Base.Int.{pos}
use lingi1341_trtp_gr.Base.Bytes.{of_be32, of_le32}
use lingi1341_trtp_gr.Base.Memory.{load}
use lingi1341_trtp_gr.Packet.{Pkt, pkt_ok, zeroed, set_first_byte, ptype_nack}
use lingi1341_trtp_gr.Old.Packet.{
  pkt_set_length, pkt_set_seqnum, pkt_set_timestamp, pkt_set_crc1, pkt_set_crc2, pkt_set_payload,
}
use lingi1341_trtp_gr.Old.Packet.Varuint.{varuint_decode, varuint_len}
use lingi1341_trtp_gr.Old.Packet.Codec.{pkt_decode, decode_header, decode_fields, decode_payload}
use lingi1341_trtp_gr.Packet.Decode.{crc32_of}
use lingi1341_trtp_gr.Old.ConnexionList.{Connexion, contains, run_over}
use lingi1341_trtp_gr.Old.Loop.State.{Server, at_start, Events, fault, out_of_fuel, going}
use lingi1341_trtp_gr.Old.Loop.Pass.{pass, read_write_loop}
use lingi1341_trtp_gr.Old.Loop.Received.{Reads, decoded_as, with_packet}
use lingi1341_trtp_gr.Old.Loop.Answer.{answered, reply_packet, pass_nacks}
use lingi1341_trtp_gr.Old.Loop.Halting.{read_write_loop_ends}
use lingi1341_trtp_gr.Old.Loop.Refusing.{all_arrivals, full_table_blocks}
use lingi1341_trtp_gr.Old.Loop.Freed.{data_packet_faults}
use lingi1341_trtp_gr.Samples.{checksum, hi_packet, hi_bytes}

abbrev connexion : ℕ → Connexion
connexion client_addr = record {
  client_addr = client_addr;
  fd_to_write = 4;
  closed = 0;
  taille_window = 1;
  window_min = 0;
  window_max = 0;
  head = 100;
}

-- Every call succeeds.
abbrev fine : List (ℕ × List ℕ) → Events
fine arrivals = record {
  arrivals = arrivals;
  polled = true;
  peeked = true;
  opening = record {
    node_granted = true;
    connexion_granted = true;
    list = 200;
    formatted = true;
    opened = true;
    fichier = some 5;
  };
  list_granted = true;
  has_read = true;
  packet_granted = true;
  payload_granted = true;
  writes = λ _. some 512;
  reply_granted = true;
  buf_granted = true;
  has_sent = true;
}

-- One connection is open, of two allowed.
abbrev one_open : Server
one_open = record at_start {
  dernier_ack = pos 1;
  nbre_connexion_en_cours = pos 1;
  connexions = connexion 7 ∷ [];
  lists = λ _. some [];
}

known : contains (some (connexion 7 ∷ [])) 7 ≡ some (connexion 7)
unfolding contains run_over
known = refl

reads : (bytes : List ℕ) → Reads (fine ((7, bytes) ∷ [])) bytes [] (connexion 7) one_open
reads bytes = record {
  first = refl;
  known = known;
  polled = refl;
  peeked = refl;
  has_read = refl;
  granted = refl;
}

abbrev hi_read : Pkt
hi_read = record hi_packet { crc1 = 80; crc2 = 177 }

hi_decoded : decoded_as checksum true hi_bytes ≡ some (pkt_ok, hi_read)
unfolding pkt_decode decode_header varuint_decode varuint_len decode_fields decode_payload
    pkt_set_length pkt_set_seqnum pkt_set_timestamp pkt_set_crc1 pkt_set_crc2 pkt_set_payload
    crc32_of load of_be32 of_le32
hi_decoded = refl

data_packet_faults_example : pass checksum (pos 2) (fine ((7, hi_bytes) ∷ [])) one_open ≡ fault
data_packet_faults_example =
    data_packet_faults checksum (pos 2) (fine ((7, hi_bytes) ∷ [])) hi_bytes [] (connexion 7)
      hi_read one_open (reads hi_bytes) hi_decoded refl refl refl refl

abbrev truncated_bytes : List ℕ
truncated_bytes = 2 ∷ 5 ∷ 4 ∷ 3 ∷ 2 ∷ 1 ∷ 0 ∷ 0 ∷ 0 ∷ 79 ∷ []

pass_nacks_example :
    pass checksum (pos 2) (fine ((7, 0x63 ∷ truncated_bytes) ∷ [])) one_open
    ≡ going (
        answered checksum 7 0
          (reply_packet ptype_nack (31 - 0) 0 0)
          (with_packet (set_first_byte zeroed 0x63) (record one_open { queue = [] })))
pass_nacks_example =
    pass_nacks checksum (pos 2) (fine ((7, 0x63 ∷ truncated_bytes) ∷ [])) 0x63 truncated_bytes []
      (connexion 7) one_open (reads (0x63 ∷ truncated_bytes)) (omega arith) refl refl (omega arith)
      refl refl refl refl

unknown : contains (some (connexion 7 ∷ [])) 8 ≡ none
unfolding contains run_over
unknown = refl

full_table_blocks_example :
    read_write_loop checksum
      (pos 1)
      (fine ((7, hi_bytes) ∷ []) ∷ fine [] ∷ [])
      (record one_open { queue = (8, hi_bytes) ∷ [] })
    ≡ going (record one_open {
      queue = ((8, hi_bytes) ∷ []) ++ all_arrivals (fine ((7, hi_bytes) ∷ []) ∷ fine [] ∷ []);
    })
full_table_blocks_example =
    full_table_blocks checksum (pos 1) (fine ((7, hi_bytes) ∷ []) ∷ fine [] ∷ []) 8 hi_bytes []
      (record one_open { queue = (8, hi_bytes) ∷ [] }) ((refl, refl), ((refl, refl), tt)) unknown
      refl refl

read_write_loop_ends_example :
    read_write_loop checksum (pos 2) (fine ((7, hi_bytes) ∷ []) ∷ []) one_open ≢ out_of_fuel
read_write_loop_ends_example =
    read_write_loop_ends checksum (pos 2) (fine ((7, hi_bytes) ∷ []) ∷ []) one_open
