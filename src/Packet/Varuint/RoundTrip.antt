-- ===== src/Packet/Varuint/RoundTrip.antt =====
-- What `varuint_encode` writes, `varuint_decode` reads back.
use lingi1341_trtp_gr.Base.{
  ℕ, ◌+◌, ◌/◌, ◌%◌, ◌^◌, ◌<◌, ◌≤◌, ◌≡◌, arith, some, List, [], ◌∷◌, ◌++◌, ltb, ◌==◌, ◌*◌,
  if◌then◌else◌, length, Bool-cases, inl, inr,
}
use lingi1341_trtp_gr.Base.Int.{pos}
use lingi1341_trtp_gr.Base.Bytes.{be16}
use lingi1341_trtp_gr.Base.Memory.{load, store}
use lingi1341_trtp_gr.Packet.Varuint.{value, varuint_decode, varuint_encode, varuint_predict_len}

-- The bytes of a length below 2 ^ 15: one for a value below 128, else two with the top bit set.
unfoldable pub varuint : ℕ → List ℕ
varuint n = if ltb n 128 then n ∷ [] else be16 (0x8000 + n)

unfoldable pub varuint_size : ℕ → ℕ
varuint_size n = if ltb n 128 then 1 else 2

-- What is left of the second byte of the buffer.
unfoldable pub spare : ℕ → ℕ → List ℕ
spare n y = if ltb n 128 then y ∷ [] else []

pub varuint_predict_len-size : (n : ℕ) → n < 2 ^ 15 → varuint_predict_len n ≡ pos (varuint_size n)
unfolding varuint_size varuint_predict_len
varuint_predict_len-size n h = ground arith

pub length-varuint : (n : ℕ) → length (varuint n) ≡ varuint_size n
unfolding varuint_size varuint be16
length-varuint n = ground arith

pub varuint_size_bounds : (n : ℕ) → (1 ≤ varuint_size n) × (varuint_size n ≤ 2)
unfolding varuint_size
varuint_size_bounds n = ground arith

pub varuint_encode-varuint :
    (n x y : ℕ)
    → n < 2 ^ 15
    → varuint_encode n (x ∷ y ∷ []) (varuint_size n)
      ≡ some (pos (varuint_size n), varuint n ++ spare n y)
unfolding varuint varuint_size varuint_encode store be16 spare
varuint_encode-varuint n x y h = ground arith

pub varuint_decode-varuint :
    (n : ℕ) (rest : List ℕ)
    → n < 2 ^ 15
    → (left : List ℕ) × (varuint_decode (some (varuint n ++ rest)) 2
        ≡ some (value (varuint_size n) n left))
unfolding varuint varuint_size varuint_decode be16
varuint_decode-varuint n rest h = elim (Bool-cases (ltb n 128)) [
  | inl short ↦ (n ∷ rest, ground arith)
  | inr long ↦ ((n % 256) ∷ (128 + n / 256) ∷ rest, ground arith)
]

-- The two bytes from which a length is decoded, in front of at least one byte.
pub load-varuint :
    (first n x : ℕ) (more : List ℕ)
    → load (first ∷ (varuint n ++ (x ∷ more))) 1 2 ≡ some (varuint n ++ spare n x)
unfolding load varuint spare be16
load-varuint first n x more = ground arith

-- Two bytes always hold an integer, of one byte or of both.
pub varuint_decode_two :
    (dat : List ℕ)
    → length dat ≡ 2
    → (l n : ℕ) × (left : List ℕ) × (varuint_decode (some dat) 2 ≡ some (value l n left))
      × (1 ≤ l)
      × (l ≤ 2)
unfolding varuint_decode
varuint_decode_two [] e = absurd (omega arith)
varuint_decode_two (a ∷ []) e = absurd (omega arith)
varuint_decode_two (a ∷ b ∷ []) e = elim (Bool-cases (a / 2 ^ 7 == 1)) [
  | inl long ↦ (2, (a * 256 + b) % 2 ^ 15, b ∷ a ∷ [], ground arith, omega arith, omega arith)
  | inr short ↦ (1, a % 2 ^ 7, a ∷ b ∷ [], ground arith, omega arith, omega arith)
]
varuint_decode_two (a ∷ b ∷ c ∷ r) e = absurd (omega arith)

-- A length below 2 ^ 15 is encoded, into a buffer of two bytes, in the number of bytes predicted,
-- and decoded from that buffer to the same length with the same number of bytes.
pub varuint_decode-varuint_encode :
    (n x y : ℕ)
    → n < 2 ^ 15
    → (size : ℕ) × (written left : List ℕ) × (varuint_predict_len n ≡ pos size)
      × (varuint_encode n (x ∷ y ∷ []) size ≡ some (pos size, written))
      × (varuint_decode (some written) 2 ≡ some (value size n left))
varuint_decode-varuint_encode n x y h =
    let (left, decoded) = varuint_decode-varuint n (spare n y) h in
    (
      varuint_size n,
      varuint n ++ spare n y,
      left,
      varuint_predict_len-size n h,
      varuint_encode-varuint n x y h,
      decoded,
    )
