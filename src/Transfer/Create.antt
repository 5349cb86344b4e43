-- ===== src/Transfer/Create.antt =====
-- What `create_data_pkt` and `create_ack_pkt` return, on a new packet.
use lingi1341_trtp_gr.Base.{
  ℕ, ◌%◌, ◌≤◌, ◌≡◌, arith, Bool, not, ◌||◌, none, some, List, ltb, ◌==◌, if◌then◌else◌, length,
  take,
}
use lingi1341_trtp_gr.Base.Int.{pos, negsuc}
use lingi1341_trtp_gr.Base.Run.{done, exit_failure}
use lingi1341_trtp_gr.Base.Memory.{load_in_range}
use lingi1341_trtp_gr.Packet.{
  Pkt, max_payload_size, max_window_size, ptype_data, ptype_ack, zeroed, pkt_set_type, pkt_set_tr,
  pkt_set_window, pkt_set_length, pkt_set_seqnum, pkt_set_timestamp, pkt_set_payload,
}
use lingi1341_trtp_gr.Transfer.{create_data_pkt, create_ack_pkt}

-- The data packet that the arguments describe.
abbrev pub data_packet : ℕ → ℕ → ℕ → ℕ → ℕ → List ℕ → Pkt
data_packet tr window n seqnum timestamp dat = record zeroed {
  window = window;
  tr = tr % 2;
  type = ptype_data;
  length = n;
  seqnum = seqnum;
  timestamp = timestamp;
  payload = if n == 0 then none else some (take n dat);
}

-- What -1 leaves: the fields set before the setter that refused.
abbrev pub left_packet : ℕ → ℕ → ℕ → ℕ → ℕ → Pkt
left_packet tr window n seqnum timestamp =
    let typed : Pkt = record zeroed { tr = tr % 2; type = ptype_data } in
    if ltb max_window_size window
    then typed
    else if ltb max_payload_size n
    then record typed { window = window }
    else record typed { window = window; length = n; seqnum = seqnum; timestamp = timestamp }

-- On a new packet and `n` readable bytes or more, `create_data_pkt` reads no byte past them, and
-- returns 1 with `data_packet` when the window is at most 31, `n` at most 512, and there is
-- memory or nothing to copy; in every other case it returns -1 and leaves the fields set so far.
pub create_data_pkt_result :
    (granted : Bool) (tr window n seqnum timestamp : ℕ) (dat : List ℕ)
    → n ≤ length dat
    → create_data_pkt granted tr window n seqnum timestamp (some dat) zeroed
      ≡ some (
          if ltb max_window_size window || (ltb max_payload_size n || not (granted || n == 0))
          then (negsuc 0, left_packet tr window n seqnum timestamp)
          else (pos 1, data_packet tr window n seqnum timestamp dat))
unfolding create_data_pkt pkt_set_type pkt_set_tr pkt_set_window pkt_set_length pkt_set_seqnum
    pkt_set_timestamp pkt_set_payload
create_data_pkt_result granted tr window n seqnum timestamp dat h =
    ground (arith, load_in_range dat 0 n)

abbrev pub ack_packet : ℕ → ℕ → ℕ → Pkt
ack_packet window seqnum timestamp = record zeroed {
  window = window;
  type = ptype_ack;
  seqnum = seqnum;
  timestamp = timestamp;
}

-- On a new packet `create_ack_pkt` returns 11 with `ack_packet` when the window is at most 31,
-- and otherwise ends the process.
pub create_ack_pkt_result :
    (window seqnum timestamp : ℕ)
    → create_ack_pkt window seqnum timestamp zeroed ≡ (
        if ltb max_window_size window
        then exit_failure
        else done (pos 11, ack_packet window seqnum timestamp))
unfolding create_ack_pkt pkt_set_type pkt_set_window pkt_set_length pkt_set_seqnum pkt_set_timestamp
create_ack_pkt_result window seqnum timestamp = ground arith
