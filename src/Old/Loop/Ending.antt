-- ===== src/Old/Loop/Ending.antt =====
-- The loop over the packets that wait (old/src/read_write_loop.c) and its fuel.
use lingi1341_trtp_gr.Base.{
  ℕ, zero, suc, ◌+◌, ◌≤◌, ◌≡◌, refl, ap, arith, Bool, true, false, Option, none, some, List, [],
  ◌∷◌, length, if◌then◌else◌,
}
use lingi1341_trtp_gr.Packet.{Pkt}
use lingi1341_trtp_gr.Old.LinkedList.{Node, unlink, is_in_list}
use lingi1341_trtp_gr.Old.ConnexionList.{Connexion}
use lingi1341_trtp_gr.Old.Loop.State.{
  Server, Events, Outcome, fault, out_of_fuel, returned, going, ◌>>=◌, or_fault, deref, pkt_del,
  write_payload,
}
use lingi1341_trtp_gr.Old.Loop.Serve.{on_next, take_packet, flush, waiting}

-- The fuel is not used up, and a result that goes on satisfies `P`.
abbrev pub Ends : {A : Type 0} → (A → Type 0) → Outcome A → Type 0
Ends P fault = Unit {0}
Ends P out_of_fuel = ⊥
Ends P (returned s) = Unit {0}
Ends P (going a) = P a

abbrev pub Halts : {A : Type 0} → Outcome A → Type 0
Halts x = Ends (λ _. Unit {0}) x

pub Ends-bind :
    {A B : Type 0} (P : A → Type 0) (Q : B → Type 0) (x : Outcome A) (f : A → Outcome B)
    → Ends P x
    → ((a : A) → P a → Ends Q (f a))
    → Ends Q (x >>= f)
Ends-bind P Q fault f h next = tt
Ends-bind P Q out_of_fuel f h next = elim h [ ]
Ends-bind P Q (returned s) f h next = tt
Ends-bind P Q (going a) f h next = next a h

pub Halts-bind :
    {A B : Type 0} (x : Outcome A) (f : A → Outcome B)
    → Halts x
    → ((a : A) → Halts (f a))
    → Halts (x >>= f)
Halts-bind fault f h next = tt
Halts-bind out_of_fuel f h next = elim h [ ]
Halts-bind (returned s) f h next = tt
Halts-bind (going a) f h next = next a

pub Halts-if :
    {A : Type 0} (b : Bool) (x y : Outcome A) → Halts x → Halts y → Halts (if b then x else y)
Halts-if true x y h h' = h
Halts-if false x y h h' = h'

pub or_fault-Halts : {A : Type 0} (x : Option A) → Halts (or_fault x)
or_fault-Halts none = tt
or_fault-Halts (some a) = tt

pub write_payload-Ends :
    (w : Option ℕ) (fd : ℕ) (p : Pkt) (s : Server)
    → Ends (λ s'. s'.lists ≡ s.lists) (write_payload w fd p s)
unfolding write_payload
write_payload-Ends none fd p s = refl
write_payload-Ends (some n) fd p s = ground arith

pub pkt_del-Ends : (s : Server) (a : ℕ) → Ends (λ s'. s'.lists ≡ s.lists) (pkt_del s a)
unfolding pkt_del
pkt_del-Ends s a = ground arith

abbrev pub found_one : Option ℕ → ℕ
found_one none = 0
found_one (some a) = 1

unlink_length :
    (i : ℕ) (nodes : List Node)
    → length (unlink i nodes).1 + found_one (unlink i nodes).0 ≡ length nodes
unfolding unlink
unlink_length i [] = refl
unlink_length i (n ∷ rest) = ground (arith, unlink_length i rest)

is_in_list_length :
    (head : Option (List Node)) (i : ℕ)
    → waiting (is_in_list head i).1 + found_one (is_in_list head i).0 ≡ waiting head
unfolding is_in_list
is_in_list_length none i = refl
is_in_list_length (some nodes) i = unlink_length i nodes

pub take_packet_length :
    (c : Connexion) (i : ℕ) (s : Server)
    → waiting ((take_packet c i s).1.lists c.head) + found_one (take_packet c i s).0
      ≡ waiting (s.lists c.head)
unfolding take_packet
take_packet_length c i s = ground (arith, is_in_list_length (s.lists c.head) i)

on_next_head : (next : Option ℕ) (c : Connexion) → (on_next next c).head ≡ c.head
on_next_head none c = refl
on_next_head (some a) c = refl

pub flush-Halts :
    (sys : Events) (fuel i : ℕ) (found : Option ℕ) (n : ℕ) (c : Connexion) (s : Server)
    → waiting (s.lists c.head) + found_one found ≤ fuel
    → Halts (flush sys fuel i found n (c, s))
unfolding flush
flush-Halts sys zero i none n c s h = tt
flush-Halts sys (suc fuel) i none n c s h = tt
flush-Halts sys zero i (some a) n c s h = absurd (omega (arith, h))
flush-Halts sys (suc fuel) i (some a) n c s h =
    Halts-bind (deref s a) _ (unfold deref in or_fault-Halts (s.store.cell a)) (λ p.
      Ends-bind (λ s'. s'.lists ≡ s.lists) (λ _. Unit {0})
        (write_payload (sys.writes i) c.fd_to_write p s) _
        (write_payload-Ends (sys.writes i) c.fd_to_write p s)
        (λ s1 e1.
          Ends-bind (λ s'. s'.lists ≡ s1.lists) (λ _. Unit {0}) (pkt_del s1 a) _ (pkt_del-Ends s1 a)
            (λ s2 e2.
              let taken : Option ℕ × Server = take_packet c (n + 1) s2 in
              flush-Halts sys fuel (i + 1) taken.0 (n + 1) (on_next taken.0 c) taken.1 (
                omega (
                  arith,
                  h,
                  on_next_head taken.0 c,
                  take_packet_length c (n + 1) s2,
                  ap (λ lists. waiting (lists c.head)) e1,
                  ap (λ lists. waiting (lists c.head)) e2,
                  ap (λ head. waiting (taken.1.lists head)) (on_next_head taken.0 c),
                )))))
