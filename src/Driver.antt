-- ===== src/Driver.antt =====
-- The test driver (src/test.c).
-- A string is the list of its bytes in front of the final zero. `error` ends the process.
pub mod Passes
pub mod Sent
pub mod Arrived
pub mod Ordered
pub mod Unordered
mod Tests
use lingi1341_trtp_gr.Base.{
  ℕ, zero, suc, ◌+◌, ◌%◌, Bool, true, false, not, ◌||◌, Option, none, some, List, [], ◌∷◌, ◌++◌,
  length, replicate, ◌==◌, if◌then◌else◌,
}
use lingi1341_trtp_gr.Base.Int.{ℤ, pos, negsuc, ◌+ℤ◌}
use lingi1341_trtp_gr.Base.Run.{Run, fault, exit_failure, done, ◌>>=◌, or_fault}
use lingi1341_trtp_gr.Zlib.{Crc32}
use lingi1341_trtp_gr.Packet.{
  Pkt, is_ok, ptype_data, ptype_ack, pkt_new, pkt_get_type, pkt_get_tr, pkt_get_window,
  pkt_get_length, pkt_get_seqnum, pkt_get_timestamp, pkt_get_payload,
}
use lingi1341_trtp_gr.Packet.Decode.{pkt_decode}
use lingi1341_trtp_gr.Packet.Encode.{pkt_encode, predict_header_length, size_of_ssize}
use lingi1341_trtp_gr.Transfer.{SendResult, create_data_pkt, create_ack_pkt, send_pkt}
use lingi1341_trtp_gr.Receiver.Steps.{is_error}
use lingi1341_trtp_gr.Command.{Atoi, ReceiverOption, ReceiverOptions, parse_receiver_commands}

-- `strcmp(object, text) == 0`; an object that ends before that is decided is read past its end.
unfoldable pub same_text : List ℕ → List ℕ → Option Bool
same_text [] text = none
same_text (b ∷ bs) [] = some (b == 0)
same_text (b ∷ bs) (c ∷ cs) =
    let later : Option Bool = same_text bs cs in if b == c then later else some false

unfoldable pub test_data_pkt : Pkt → List ℕ → ℕ → Run ℤ
test_data_pkt packet payload seqnum =
    if not (pkt_get_type packet == ptype_data)
    then exit_failure
    else if not (pkt_get_tr packet == 0)
    then exit_failure
    else if not (pkt_get_window packet == 3)
    then exit_failure
    else if not (pkt_get_length packet == length payload + 1)
    then exit_failure
    else if not (pkt_get_seqnum packet == seqnum)
    then exit_failure
    else if not (pkt_get_timestamp packet == 3735928559)
    then exit_failure
    else (do
      object ← or_fault (pkt_get_payload packet)
      same ← or_fault (same_text object payload)
      if same then done (pos 1) else exit_failure)

unfoldable pub test_ack_pkt : Pkt → ℕ → ℕ → ℕ → Run ℤ
test_ack_pkt packet window seqnum timestamp =
    if not (pkt_get_type packet == ptype_ack)
    then exit_failure
    else if not (pkt_get_tr packet == 0)
    then exit_failure
    else if not (pkt_get_window packet == window)
    then exit_failure
    else if not (pkt_get_length packet == 0)
    then exit_failure
    else if not (pkt_get_seqnum packet == seqnum)
    then exit_failure
    else if not (pkt_get_timestamp packet == timestamp)
    then exit_failure
    else done (pos 1)

abbrev pub is_one : ℤ → Bool
is_one (pos n) = n == 1
is_one (negsuc n) = false

-- What `malloc` and `calloc` grant to a test.
pub record Grants : Type 0 where
  pub source : Bool
  pub copied : Bool
  pub buffer : Bool
  pub dest : Bool
  pub decoded : Bool

-- "Hello, World !"
abbrev pub greeting : List ℕ
greeting = 72 ∷ 101 ∷ 108 ∷ 108 ∷ 111 ∷ 44 ∷ 32 ∷ 87 ∷ 111 ∷ 114 ∷ 108 ∷ 100 ∷ 32 ∷ 33 ∷ []

-- The bytes of `malloc` are taken as zeros.
unfoldable pub encode_decode_data_test : Crc32 → Grants → Run ℤ
encode_decode_data_test z sys = do
  fresh ← or_fault (pkt_new sys.source)
  (made, p) ← or_fault (
      create_data_pkt sys.copied 0 3 (length greeting + 1) 0 3735928559
        (some (greeting ++ (0 ∷ []))) fresh)
  let len : ℕ = size_of_ssize (predict_header_length (some p) +ℤ pos (4 + pkt_get_length p + 4))
  (status, o) ← if sys.buffer then or_fault (pkt_encode z p (replicate len 0) len) else exit_failure
  if not (is_ok status) then done (negsuc 0) else (do
    dest ← or_fault (pkt_new sys.dest)
    (code, q) ← or_fault (pkt_decode z sys.decoded o.buf o.len dest)
    if not (is_ok code)
        then done (negsuc 0)
        else (do rslt ← test_data_pkt q greeting 0; done (if is_one rslt then pos 1 else negsuc 0)))

unfoldable pub encode_decode_ack_test : Crc32 → Grants → Run ℤ
encode_decode_ack_test z sys = do
  fresh ← or_fault (pkt_new sys.source)
  (made, p) ← create_ack_pkt 3 0 0 fresh
  (status, o) ←
      if is_error made || not sys.buffer
      then exit_failure
      else or_fault (pkt_encode z p (replicate 11 0) 11)
  if not (is_ok status) then exit_failure else (do
    dest ← or_fault (pkt_new sys.dest)
    (code, q) ← or_fault (pkt_decode z sys.decoded o.buf o.len dest)
    if not (is_ok code)
        then exit_failure
        else (do rslt ← test_ack_pkt q 3 0 0; done (if is_one rslt then pos 1 else negsuc 0)))

-- What the system does for one packet that is made and sent.
pub record Sending : Type 0 where
  pub granted : Bool
  pub copied : Bool
  pub send : SendResult

-- `pkt_new`, `create_data_pkt` with a window of 3 and timestamp 0, and `send_pkt`; neither result is
-- looked at. The datagram handed to `sendto`.
unfoldable pub send_text : Crc32 → Sending → List ℕ → ℕ → Run (List ℕ)
send_text z sys payload seqnum = do
  fresh ← or_fault (pkt_new sys.granted)
  (made, p) ← or_fault (
      create_data_pkt sys.copied 0 3 (length payload + 1) (seqnum % 256) 0
        (some (payload ++ (0 ∷ []))) fresh)
  (rslt, datagram) ← send_pkt z sys.send p
  done datagram

-- "Hello World !"
abbrev pub hello_text : List ℕ
hello_text = 72 ∷ 101 ∷ 108 ∷ 108 ∷ 111 ∷ 32 ∷ 87 ∷ 111 ∷ 114 ∷ 108 ∷ 100 ∷ 32 ∷ 33 ∷ []

-- The loop of `window_test` from `i` on, `n` packets.
unfoldable pub send_texts : Crc32 → (ℕ → Sending) → ℕ → ℕ → Run (List (List ℕ))
send_texts z sys zero i = done []
send_texts z sys (suc n) i = do
  datagram ← send_text z (sys i) hello_text i
  rest ← send_texts z sys n (i + 1)
  done (datagram ∷ rest)

unfoldable pub window_test : Crc32 → (ℕ → Sending) → Run (List (List ℕ))
window_test z sys = send_texts z sys 258 0

-- "Hello  World!"
abbrev pub unordered_text : List ℕ
unordered_text = 72 ∷ 101 ∷ 108 ∷ 108 ∷ 111 ∷ 32 ∷ 32 ∷ 87 ∷ 111 ∷ 114 ∷ 108 ∷ 100 ∷ 33 ∷ []

unfoldable pub unorder_test : Crc32 → (ℕ → Sending) → Run (List (List ℕ))
unorder_test z sys = do
  d0 ← send_text z (sys 0) unordered_text 2
  d1 ← send_text z (sys 1) unordered_text 1
  d2 ← send_text z (sys 2) unordered_text 3
  d3 ← send_text z (sys 3) unordered_text 0
  d4 ← send_text z (sys 4) unordered_text 3
  done (d0 ∷ d1 ∷ d2 ∷ d3 ∷ d4 ∷ [])

unfoldable pub send_ack : Crc32 → Sending → ℕ → ℕ → ℕ → Run (List ℕ)
send_ack z sys window seqnum timestamp = do
  fresh ← or_fault (pkt_new sys.granted)
  (made, p) ← create_ack_pkt window seqnum timestamp fresh
  (rslt, datagram) ← send_pkt z sys.send p
  done datagram

-- The result is always 1; the datagrams.
unfoldable pub ack_test : Crc32 → (ℕ → Sending) → Run (List (List ℕ))
ack_test z sys = do
  d0 ← send_ack z (sys 0) 3 0 0
  d1 ← send_ack z (sys 1) 1 2 2
  d2 ← send_ack z (sys 2) 0 2 2
  d3 ← send_ack z (sys 3) 3 3 3
  d4 ← send_ack z (sys 4) 1 6 6
  done (d0 ∷ d1 ∷ d2 ∷ d3 ∷ d4 ∷ [])

-- `parse_commands` of the driver is that of the receiver.
abbrev pub parse_driver_commands :
    Atoi → Bool → List ReceiverOption → List (List ℕ) → ReceiverOptions → Run (ℤ × ReceiverOptions)
parse_driver_commands = parse_receiver_commands

-- The program prints the result of the first test, and returns 1.
unfoldable pub driver_main :
    Crc32 → Atoi → Bool → List ReceiverOption → List (List ℕ) → ReceiverOptions → Grants → Run ℤ
driver_main z atoi granted options arguments c sys = do
  (rslt, c1) ← parse_driver_commands atoi granted options arguments c
  if not (is_one rslt)
      then exit_failure
      else (do printed ← encode_decode_data_test z sys; done (pos 1))
