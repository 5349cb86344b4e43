-- ===== src/Zlib.antt =====
-- The `crc32` of zlib, which packet_implem.c links against: a parameter of the codec.
-- zlib's manual: the result is a 32-bit value, and a call on Z_NULL returns the initial value 0.
use lingi1341_trtp_gr.Base.{ℕ, ◌^◌, ◌<◌, ◌≡◌, List, Option, none}

pub record Crc32 : Type 0 where
  pub crc32 : Option (List ℕ) → ℕ
  pub crc32-lt : (buf : Option (List ℕ)) → crc32 buf < 2 ^ 32
  pub crc32_null : crc32 none ≡ 0
