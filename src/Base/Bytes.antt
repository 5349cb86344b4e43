-- ===== src/Base/Bytes.antt =====
-- Words of 16 and 32 bits as bytes, in host order (little endian) and in network order.
use lingi1341_trtp_gr.Base.{
  ℕ, ◌+◌, ◌*◌, ◌/◌, ◌%◌, ◌^◌, ◌<◌, ◌≡◌, refl, arith, List, [], ◌∷◌, All, length,
}

abbrev pub IsByte : ℕ → Type 0
IsByte b = b < 256

-- The object representation of a `uint32_t` on the host.
unfoldable pub le32 : ℕ → List ℕ
le32 v = v % 256 ∷ v / 2 ^ 8 % 256 ∷ v / 2 ^ 16 % 256 ∷ v / 2 ^ 24 % 256 ∷ []

-- `htonl`, as bytes.
unfoldable pub be32 : ℕ → List ℕ
be32 v = v / 2 ^ 24 % 256 ∷ v / 2 ^ 16 % 256 ∷ v / 2 ^ 8 % 256 ∷ v % 256 ∷ []

-- `htons`, as bytes.
unfoldable pub be16 : ℕ → List ℕ
be16 v = v / 2 ^ 8 % 256 ∷ v % 256 ∷ []

-- Four bytes as a `uint32_t` of the host.
unfoldable pub of_le32 : List ℕ → ℕ
of_le32 (a ∷ b ∷ c ∷ d ∷ _) = a + b * 2 ^ 8 + c * 2 ^ 16 + d * 2 ^ 24
of_le32 _ = 0

-- Four bytes through `ntohl`.
unfoldable pub of_be32 : List ℕ → ℕ
of_be32 (a ∷ b ∷ c ∷ d ∷ _) = a * 2 ^ 24 + b * 2 ^ 16 + c * 2 ^ 8 + d
of_be32 _ = 0

pub of_le32-le32 : (v : ℕ) → v < 2 ^ 32 → of_le32 (le32 v) ≡ v
unfolding le32 of_le32
of_le32-le32 v h = omega arith

pub of_be32-be32 : (v : ℕ) → v < 2 ^ 32 → of_be32 (be32 v) ≡ v
unfolding be32 of_be32
of_be32-be32 v h = omega arith

pub length-le32 : (v : ℕ) → length (le32 v) ≡ 4
unfolding le32
length-le32 v = refl

pub length-be32 : (v : ℕ) → length (be32 v) ≡ 4
unfolding be32
length-be32 v = refl

-- Four bytes make a 32-bit word.
pub of_be32-lt : (bs : List ℕ) → All IsByte bs → of_be32 bs < 2 ^ 32
unfolding of_be32
of_be32-lt [] h = omega arith
of_be32-lt (a ∷ []) h = omega arith
of_be32-lt (a ∷ b ∷ []) h = omega arith
of_be32-lt (a ∷ b ∷ c ∷ []) h = omega arith
of_be32-lt (a ∷ b ∷ c ∷ d ∷ r) h = omega arith

pub of_le32-lt : (bs : List ℕ) → All IsByte bs → of_le32 bs < 2 ^ 32
unfolding of_le32
of_le32-lt [] h = omega arith
of_le32-lt (a ∷ []) h = omega arith
of_le32-lt (a ∷ b ∷ []) h = omega arith
of_le32-lt (a ∷ b ∷ c ∷ []) h = omega arith
of_le32-lt (a ∷ b ∷ c ∷ d ∷ r) h = omega arith
