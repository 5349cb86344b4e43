-- ===== src/Old/Loop/Refusing.antt =====
-- A sender that the earlier receiver has no place for (old/src/read_write_loop.c).
use lingi1341_trtp_gr.Base.{
  ℕ, ◌≡◌, ap, arith, true, false, none, some, List, [], ◌∷◌, ◌++◌, append_assoc, append-nil, All,
}
use lingi1341_trtp_gr.Base.Int.{ℤ, ltb_ℤ}
use lingi1341_trtp_gr.Zlib.{Crc32}
use lingi1341_trtp_gr.Old.ConnexionList.{contains}
use lingi1341_trtp_gr.Old.Loop.State.{Server, Events, going}
use lingi1341_trtp_gr.Old.Loop.Pass.{serve, pass, read_write_loop}

-- All that came in over some passes.
abbrev pub all_arrivals : List Events → List (ℕ × List ℕ)
all_arrivals [] = []
all_arrivals (sys ∷ later) = sys.arrivals ++ all_arrivals later

-- In a pass `poll` and the `recvfrom` that looks at the sender succeed.
abbrev pub Looks : Events → Type 0
Looks sys = (sys.polled ≡ true) × (sys.peeked ≡ true)

pass_refuses :
    (z : Crc32) (max : ℤ) (sys : Events) (client_addr : ℕ) (bytes : List ℕ)
    (rest : List (ℕ × List ℕ)) (s : Server)
    → Looks sys
    → contains (some s.connexions) client_addr ≡ none
    → ltb_ℤ s.nbre_connexion_en_cours max ≡ false
    → s.queue ≡ (client_addr, bytes) ∷ rest
    → pass z max sys s ≡ going (record s { queue = s.queue ++ sys.arrivals })
unfolding pass serve
pass_refuses z max sys client_addr bytes rest s looks unknown full first =
    ground (arith, looks, unknown, full, first)

-- A full table stops the receiver for good. When the first datagram in the queue is from a sender
-- with no connection, and there are as many connections as allowed, then however many passes are
-- made in which `poll` and `recvfrom` succeed, and whatever else arrives, also for the connections
-- that are open, the loop only goes on: it reads nothing, sends nothing and changes nothing but the
-- queue, which grows by the arrivals.
pub full_table_blocks :
    (z : Crc32) (max : ℤ) (passes : List Events) (client_addr : ℕ) (bytes : List ℕ)
    (rest : List (ℕ × List ℕ)) (s : Server)
    → All Looks passes
    → contains (some s.connexions) client_addr ≡ none
    → ltb_ℤ s.nbre_connexion_en_cours max ≡ false
    → s.queue ≡ (client_addr, bytes) ∷ rest
    → read_write_loop z max passes s ≡ going (record s { queue = s.queue ++ all_arrivals passes })
unfolding read_write_loop
full_table_blocks z max [] client_addr bytes rest s looks unknown full first =
    ground (arith, append-nil s.queue)
full_table_blocks z max (sys ∷ later) client_addr bytes rest s (look, looks) unknown full first =
    ground (
      arith,
      pass_refuses z max sys client_addr bytes rest s look unknown full first,
      full_table_blocks z max later client_addr bytes (rest ++ sys.arrivals)
          (record s { queue = s.queue ++ sys.arrivals }) looks unknown full
          (ap (λ queue. queue ++ sys.arrivals) first),
      append_assoc s.queue sys.arrivals (all_arrivals later),
    )
