-- ===== src/Old/Socket.antt =====
-- The socket functions of the earlier receiver (old/src/socket.c).
use lingi1341_trtp_gr.Base.{
  ℕ, Bool, true, false, not, ◌&&◌, ◌||◌, Option, none, some, List, [], ◌∷◌, if◌then◌else◌,
}
use lingi1341_trtp_gr.Base.Int.{ℤ, pos, negsuc, ltb_ℤ}
use lingi1341_trtp_gr.Base.Run.{Run, fault, done, ◌>>=◌}
use lingi1341_trtp_gr.Program.{Address, htons}

-- `res` is what `getaddrinfo` finds, or `none` when it fails. The result is `none` for the text of an
-- error, and the address where NULL is returned.
unfoldable pub real_address : Option (List Address) → Run (Option Address)
real_address none = done none
real_address (some []) = fault
real_address (some (a ∷ rest)) = done (some a)

-- What `socket`, `bind` and `connect` do.
pub record SocketCalls : Type 0 where
  pub socket : Option ℕ
  pub bound : Bool
  pub connected : Bool

abbrev pub is_given : {A : Type 0} → Option A → Bool
is_given none = false
is_given (some _) = true

-- A port is written only when it is positive.
unfoldable pub set_port : Option Address → ℤ → Run (Option Address)
set_port none port = if ltb_ℤ (pos 0) port then fault else done none
set_port (some a) port =
    done (some (if ltb_ℤ (pos 0) port then record a { sin6_port = htons port } else a))

-- The descriptor or -1, and the two addresses.
unfoldable pub create_socket :
    SocketCalls
    → Option Address
    → ℤ
    → Option Address
    → ℤ
    → Run (ℤ × (Option Address × Option Address))
create_socket sys source_addr src_port dest_addr dst_port = elim sys.socket [
  | none ↦ done (negsuc 0, (source_addr, dest_addr))
  | some fd ↦ do
    source ← set_port source_addr src_port
    dest ← set_port dest_addr dst_port
    let refused : Bool = is_given source && not sys.bound || is_given dest && not sys.connected
    done (if refused then negsuc 0 else pos fd, (source, dest))
]

-- `has_read` says whether `recvfrom` succeeds.
unfoldable pub wait_for_client : Bool → ℤ
wait_for_client has_read = if has_read then pos 0 else negsuc 0
