-- ===== src/Transfer/Text.antt =====
-- The functions of src/packet_utils.c that move text, and its `min` and `max`. What is printed comes
-- as a list, without the fixed texts; `error` ends the process.
use lingi1341_trtp_gr.Base.{
  ℕ, zero, suc, ◌+◌, ◌≡◌, refl, sym, ap, ◌∙◌, arith, Bool, true, List, [], ◌∷◌, ◌++◌, length,
  length-append, get_elem?, get_elem?-append, append_assoc, if◌then◌else◌,
}
use lingi1341_trtp_gr.Base.Int.{ℤ, pos, negsuc, ltb_ℤ}
use lingi1341_trtp_gr.Base.Run.{Run, exit_failure, done, ◌>>=◌, or_fault}

unfoldable pub min : ℤ → ℤ → ℤ
min a b = if ltb_ℤ b a then b else a

unfoldable pub max : ℤ → ℤ → ℤ
max a b = if ltb_ℤ b a then a else b

-- "Hello, World !"
abbrev pub hello_message : List ℕ
hello_message = 72 ∷ 101 ∷ 108 ∷ 108 ∷ 111 ∷ 44 ∷ 32 ∷ 87 ∷ 111 ∷ 114 ∷ 108 ∷ 100 ∷ 32 ∷ 33 ∷ []

-- The return value and the datagram.
unfoldable pub send_hello : Bool → Run (ℤ × List ℕ)
send_hello sent = if sent then done (pos 1, hello_message) else exit_failure

-- The `n` bytes of an array from the `i`-th on.
unfoldable pub print_bytes : List ℕ → ℕ → ℕ → Run (List ℕ)
print_bytes buffer i zero = done []
print_bytes buffer i (suc n) = do
  b ← or_fault (get_elem? buffer i)
  rest ← print_bytes buffer (i + 1) n
  done (b ∷ rest)

-- `buffer` is the array as `recv` leaves it, and `n_received` its result. The return value, and the
-- bytes that are printed.
unfoldable pub receive : List ℕ → ℤ → Run (ℤ × List ℕ)
receive buffer (negsuc n) = exit_failure
receive buffer (pos n) = do shown ← print_bytes buffer 0 n; done (pos n, shown)

-- `src_addr` is the structure as `recvfrom` leaves it, and `addrlen` its length. The return value,
-- the bytes of the message, and those of the address.
unfoldable pub receive_from : List ℕ → ℤ → List ℕ → ℕ → Run (ℤ × List ℕ × List ℕ)
receive_from buffer (negsuc n) src_addr addrlen = exit_failure
receive_from buffer (pos n) src_addr addrlen = do
  shown ← print_bytes buffer 0 n
  peer ← print_bytes src_addr 0 addrlen
  done (pos n, shown, peer)

print_bytes-append :
    (pre text rest : List ℕ) (i n : ℕ)
    → i ≡ length pre
    → n ≡ length text
    → print_bytes (pre ++ (text ++ rest)) i n ≡ done text
unfolding print_bytes
print_bytes-append pre [] rest i zero ei en = refl
print_bytes-append pre [] rest i (suc n) ei en = absurd (omega arith)
print_bytes-append pre (b ∷ text) rest i zero ei en = absurd (omega arith)
print_bytes-append pre (b ∷ text) rest i (suc n) ei en =
    let later : print_bytes (pre ++ (b ∷ (text ++ rest))) (i + 1) n ≡ done text =
      ap (λ l. print_bytes l (i + 1) n) (sym (append_assoc pre (b ∷ []) (text ++ rest)))
      ∙ print_bytes-append (pre ++ (b ∷ [])) text rest (i + 1) n
          (omega (arith, ei, length-append pre (b ∷ []))) (omega (arith, en)) in
    ground (arith, get_elem?-append pre (text ++ rest) b i ei, later)

-- The greeting arrives, and every message is printed as it is. In an array that holds a message and
-- anything behind it, `receive` prints the message, byte by byte and no more, and returns its length,
-- as `receive_from` does, which prints the bytes of the sender's address too; the greeting of
-- `send_hello` is such a message, of 14 bytes; and an error of the system ends the process.
messages_shown :
    (text behind peer unused : List ℕ) (n : ℕ)
    → (receive (text ++ behind) (pos (length text)) ≡ done (pos (length text), text))
      × (receive_from (text ++ behind) (pos (length text)) (peer ++ unused) (length peer)
          ≡ done (pos (length text), text, peer))
      × (receive (text ++ behind) (negsuc n) ≡ exit_failure)
      × ((message : List ℕ) × (send_hello true ≡ done (pos 1, message))
          × (receive (message ++ behind) (pos 14) ≡ done (pos 14, message)))
unfolding receive receive_from send_hello
messages_shown text behind peer unused n = (
  ground (arith, print_bytes-append [] text behind 0 (length text) refl refl),
  ground (
    arith,
    print_bytes-append [] text behind 0 (length text) refl refl,
    print_bytes-append [] peer unused 0 (length peer) refl refl,
  ),
  refl,
  (hello_message, refl, ground (arith, print_bytes-append [] hello_message behind 0 14 refl refl)),
)
