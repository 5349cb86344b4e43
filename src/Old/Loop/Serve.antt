-- ===== src/Old/Loop/Serve.antt =====
-- A data packet of an open connection, up to its acknowledgement (old/src/read_write_loop.c).
use lingi1341_trtp_gr.Base.{
  ℕ, zero, suc, ◌+◌, Bool, Option, none, some, List, length, ◌==◌, if◌then◌else◌,
}
use lingi1341_trtp_gr.Packet.{Pkt}
use lingi1341_trtp_gr.Old.Packet.{pkt_get_window, pkt_get_seqnum}
use lingi1341_trtp_gr.Old.LinkedList
use lingi1341_trtp_gr.Old.LinkedList.{Node, is_in_list}
use lingi1341_trtp_gr.Old.ConnexionList.{Connexion}
use lingi1341_trtp_gr.Old.Window.{is_in_window, augmente_borne, change_window}
use lingi1341_trtp_gr.Old.Loop.State.{
  Server, Events, Outcome, out_of_fuel, going, ◌>>=◌, set_list, deref, pkt_del, write_payload,
}

-- The connection and the rest of the state.
abbrev pub Current : Type 0
Current = Connexion × Server

abbrev pub augmente_bornes : Connexion → Connexion
augmente_bornes c = record c {
  window_min = augmente_borne c.window_min;
  window_max = augmente_borne c.window_max;
}

-- `isInList(c_courante->head, indice)`
unfoldable pub take_packet : Connexion → ℕ → Server → Option ℕ × Server
take_packet c indice s =
    let found : Option ℕ × Option (List Node) = is_in_list (s.lists c.head) indice in
    (found.0, record s { lists = set_list s.lists c.head found.1 })

-- The bounds move on only when there is one more packet to write.
abbrev pub on_next : Option ℕ → Connexion → Connexion
on_next none c = c
on_next (some _) c = augmente_bornes c

-- The loop over the packets that wait, from `pktSuivant` on; `i` counts the writes.
unfoldable pub flush : Events → ℕ → ℕ → Option ℕ → ℕ → Current → Outcome Current
flush sys fuel i none seqnum_suivant cur = going cur
flush sys zero i (some a) seqnum_suivant cur = out_of_fuel
flush sys (suc fuel) i (some a) seqnum_suivant (c, s) = do
  p ← deref s a
  s1 ← write_payload (sys.writes i) c.fd_to_write p s
  s2 ← pkt_del s1 a
  let (next, s3) = take_packet c (seqnum_suivant + 1) s2
  flush sys fuel (i + 1) next (seqnum_suivant + 1) (on_next next c, s3)

-- The nodes that wait; a NULL head has none.
abbrev pub waiting : Option (List Node) → ℕ
waiting none = 0
waiting (some nodes) = length nodes

-- The packet is at the low end of the window. The loop gets one unit of fuel for each node.
unfoldable pub write_in_order : Events → Pkt → Current → Outcome Current
write_in_order sys p (c, s) = do
  s1 ← write_payload (sys.writes 0) c.fd_to_write p s
  let c1 : Connexion = augmente_bornes c
  let (next, s2) = take_packet c1 (pkt_get_seqnum p + 1) s1
  flush sys (waiting (s1.lists c1.head)) 1 next (pkt_get_seqnum p + 1) (c1, s2)

-- The packet is inside the window and early: its address is kept. `granted` is whether the node
-- could be made; the result of `insert` is only printed.
unfoldable pub keep_packet : Bool → ℕ → Pkt → Current → Current
keep_packet granted a p (c, s) = (
  c,
  record s {
    lists =
        set_list s.lists c.head (LinkedList.insert granted (s.lists c.head) a (pkt_get_seqnum p)).1;
    nbre_pkt_buffer = s.nbre_pkt_buffer + 1;
  },
)

-- The window, and what becomes of the packet.
unfoldable pub place_packet : Events → ℕ → Pkt → Current → Outcome Current
place_packet sys a p (c0, s) =
    let c : Connexion = change_window (pkt_get_window p) c0 in
    if is_in_window (pkt_get_seqnum p) c.window_min c.window_max == 1
    then if pkt_get_seqnum p == c.window_min
      then write_in_order sys p (c, s)
      else going (keep_packet sys.list_granted a p (c, s))
    else going (c, s)
