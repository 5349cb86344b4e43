-- ===== src/Base/Memory.antt =====
-- `memcpy` from and to an object that is a list of bytes. An access outside the object faults.
use lingi1341_trtp_gr.Base.{
  ℕ, ◌+◌, ◌≤◌, ◌≡◌, refl, arith, List, ◌++◌, Option, none, some, leb, if◌then◌else◌, length, take,
  drop, length-append, take-append, drop-append, drop-append_more, take_all, length-drop, drop-drop,
  length-take,
}

-- `memcpy(dst, obj + off, n)`
unfoldable pub load : List ℕ → ℕ → ℕ → Option (List ℕ)
load obj off n = if leb (off + n) (length obj) then some (take n (drop off obj)) else none

-- `memcpy(obj + off, bs, length bs)`
unfoldable pub store : List ℕ → ℕ → List ℕ → Option (List ℕ)
store obj off bs =
    if leb (off + length bs) (length obj)
    then some (take off obj ++ (bs ++ drop (off + length bs) obj))
    else none

pub load_in_range :
    (obj : List ℕ) (off n : ℕ)
    → off + n ≤ length obj
    → load obj off n ≡ some (take n (drop off obj))
unfolding load
load_in_range obj off n h = ground arith

-- The piece in the middle of an object.
pub load-append :
    (pre bs rest : List ℕ) (off n : ℕ)
    → off ≡ length pre
    → n ≡ length bs
    → load (pre ++ (bs ++ rest)) off n ≡ some bs
unfolding load
load-append pre bs rest off n e f = ground (
  arith,
  length-append pre (bs ++ rest),
  length-append bs rest,
  drop-append off pre (bs ++ rest) e,
  take-append n bs rest f,
)

-- Writing behind what has been written.
pub store-append :
    (pre bs rest : List ℕ) (off : ℕ)
    → off ≡ length pre
    → length bs ≤ length rest
    → store (pre ++ rest) off bs ≡ some (pre ++ (bs ++ drop (length bs) rest))
unfolding store
store-append pre bs rest off e h = ground (
  arith,
  length-append pre rest,
  take-append off pre rest e,
  drop-append_more (off + length bs) (length bs) pre rest (omega arith),
)

-- The whole of an object.
pub load_all : (obj : List ℕ) (n : ℕ) → n ≡ length obj → load obj 0 n ≡ some obj
unfolding load
load_all obj n e = ground (arith, take_all n obj e)

-- A piece behind what stands at an offset.
pub load_behind :
    (dat pre bs rest : List ℕ) (off i n : ℕ)
    → drop off dat ≡ pre ++ (bs ++ rest)
    → i ≡ off + length pre
    → n ≡ length bs
    → 1 ≤ n
    → load dat i n ≡ some bs
unfolding load
load_behind dat pre bs rest off i n behind e f nonempty = ground (
  arith,
  length-drop off dat,
  length-append pre (bs ++ rest),
  length-append bs rest,
  drop-drop (length pre) off i dat,
  drop-append (length pre) pre (bs ++ rest) refl,
  take-append n bs rest f,
)

-- A load returns as many bytes as were asked for.
pub length-load :
    (obj : List ℕ) (off n : ℕ) (bs : List ℕ) → load obj off n ≡ some bs → length bs ≡ n
unfolding load
length-load obj off n bs e = ground (arith, length-take n (drop off obj), length-drop off obj)

pub load_front : (obj : List ℕ) (n : ℕ) (bs : List ℕ) → load obj 0 n ≡ some bs → bs ≡ take n obj
unfolding load
load_front obj n bs e = ground arith
