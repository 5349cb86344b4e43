-- ===== src/Old/Program/Reads.antt =====
-- What the earlier receiver's loop over its arguments finds (old/src/receiver.c).
use lingi1341_trtp_gr.Base.{
  ℕ, zero, suc, ◌+◌, ◌*◌, ◌≤◌, ◌<◌, ◌≡◌, refl, sym, ap, ◌∙◌, arith, true, false, not, ◌&&◌, some,
  List, [], ◌∷◌, ◌++◌, length, length-append, get_elem?, get_elem?-append, append_assoc, All,
}
use lingi1341_trtp_gr.Base.Run.{done}
use lingi1341_trtp_gr.Command.{Atoi, is_zero}
use lingi1341_trtp_gr.Old.Program.{
  Found, found_o, found_m, other, Getopt, Commands, is_number, take_argument, take_found, interpret,
  default_commands,
}

abbrev pub found_at : List Found → ℕ → Found
found_at [] n = other
found_at (found ∷ later) zero = found
found_at (found ∷ later) (suc n) = found_at later n

abbrev pub IsOption : Found → Type 0
IsOption other = ⊥
IsOption _ = Unit {0}

-- The variables after some options.
abbrev pub after_options : Atoi → List Found → Commands → Commands
after_options atoi [] c = c
after_options atoi (found_o text ∷ later) c =
    after_options atoi later (record c { format_sortie = text })
after_options atoi (found_m text ∷ later) c =
    after_options atoi later (record c { nbre_connexion_max = atoi text })
after_options atoi (other ∷ later) c = after_options atoi later c

-- `getopt` finds the options, one in each call, and has put the hostname and the port behind the
-- program's name and two arguments for each option once it finds no more; memory is granted.
pub record Reads (calls : ℕ → Getopt) (options : List Found) (hostname port : List ℕ) : Type 0 where
  pub are_options : All IsOption options
  pub found : (n : ℕ) → (calls n).found ≡ found_at options n
  pub words : List (List ℕ)
  pub two_each : length words ≡ 1 + 2 * length options
  pub left : (n : ℕ) → length options ≤ n → (calls n).argv ≡ words ++ (hostname ∷ port ∷ [])
  pub granted : (n : ℕ) → (calls n).granted ≡ true

-- The two arguments are told apart.
pub record AreTold (atoi : Atoi) (hostname port : List ℕ) : Type 0 where
  pub no_port : (is_number hostname && not (is_zero (atoi hostname))) ≡ false
  pub a_port : (is_number port && not (is_zero (atoi port))) ≡ true

interpret_end :
    (atoi : Atoi) (calls : ℕ → Getopt) (fuel n argc index : ℕ) (c : Commands)
    → argc ≤ index
    → interpret atoi calls fuel n argc index c ≡ done (some c)
unfolding interpret
interpret_end atoi calls zero n argc index c past = ground (arith, past)
interpret_end atoi calls (suc fuel) n argc index c past = ground (arith, past)

interpret_moves :
    (atoi : Atoi) (calls : ℕ → Getopt) (found : Found) (fuel n argc index moved : ℕ)
    (c c1 : Commands)
    → (calls n).found ≡ found
    → take_found atoi (calls n) found index c ≡ done (moved, c1)
    → index < argc
    → interpret atoi calls (suc fuel) n argc index c
      ≡ interpret atoi calls fuel (n + 1) argc (index + moved) c1
unfolding interpret
interpret_moves atoi calls found fuel n argc index moved c c1 is_found takes more =
    ground (arith, is_found, takes, more)

option_taken :
    (atoi : Atoi) (call : Getopt) (option : Found) (later : List Found) (i : ℕ) (c : Commands)
    → IsOption option
    → (c1 : Commands) × (take_found atoi call option i c ≡ done (2, c1))
      × (after_options atoi (option ∷ later) c ≡ after_options atoi later c1)
unfolding take_found
option_taken atoi call (found_o text) later i c is_option =
    (record c { format_sortie = text }, refl, refl)
option_taken atoi call (found_m text) later i c is_option =
    (record c { nbre_connexion_max = atoi text }, refl, refl)
option_taken atoi call other later i c is_option = elim is_option [ ]

interpret_options :
    (atoi : Atoi) (calls : ℕ → Getopt) (options : List Found) (total fuel n m argc i j : ℕ)
    (c : Commands)
    → All IsOption options
    → ((k : ℕ) → (calls (n + k)).found ≡ found_at options k)
    → total ≡ length options + fuel
    → m ≡ n + length options
    → j ≡ i + 2 * length options
    → j ≤ argc
    → interpret atoi calls total n argc i c
      ≡ interpret atoi calls fuel m argc j (after_options atoi options c)
interpret_options atoi calls [] total fuel n m argc i j c are found t em ej room =
    let same : total ≡ fuel = omega (arith, t) in
    let no_call : m ≡ n = omega (arith, em) in
    let no_word : j ≡ i = omega (arith, ej) in rw (same, no_call, no_word)
interpret_options atoi calls (option ∷ later) zero fuel n m argc i j c are found t em ej room =
    absurd (omega (arith, t))
interpret_options atoi calls (option ∷ later) (suc total) fuel n m argc i j c (is_option, are) found
      t em ej room =
    let first : (calls n).found ≡ option = ap (λ k. (calls k).found) (omega arith) ∙ found 0 in
    let next : (k : ℕ) → (calls (n + 1 + k)).found ≡ found_at later k =
      λ k. ap (λ l. (calls l).found) (omega arith) ∙ found (suc k) in
    let (c1, takes, after) = option_taken atoi (calls n) option later i c is_option in
    interpret_moves atoi calls option total n argc i 2 c c1 first takes (omega (arith, room, ej))
    ∙ interpret_options atoi calls later total fuel (n + 1) m argc (i + 2) j c1 are next
        (omega (arith, t)) (omega (arith, em)) (omega (arith, ej)) room
    ∙ ap (interpret atoi calls fuel m argc j) (sym after)

taken_hostname :
    (atoi : Atoi) (call : Getopt) (i : ℕ) (hostname port : List ℕ) (c : Commands)
    → AreTold atoi hostname port
    → call.granted ≡ true
    → get_elem? call.argv i ≡ some hostname
    → take_found atoi call other i c ≡ done (1, record c { hostname = some hostname })
unfolding take_found take_argument
taken_hostname atoi call i hostname port c told granted at =
    ground (arith, told.no_port, granted, at)

taken_port :
    (atoi : Atoi) (call : Getopt) (i : ℕ) (hostname port : List ℕ) (c : Commands)
    → AreTold atoi hostname port
    → get_elem? call.argv i ≡ some port
    → take_found atoi call other i c ≡ done (1, record c { port = atoi port })
unfolding take_found take_argument
taken_port atoi call i hostname port c told at = ground (arith, told.a_port, at)

found_at-past : (options : List Found) (n : ℕ) → length options ≤ n → found_at options n ≡ other
found_at-past [] n past = refl
found_at-past (option ∷ later) zero past = absurd (omega (arith, past))
found_at-past (option ∷ later) (suc n) past = found_at-past later n (omega (arith, past))

-- The variables after the options, the hostname and the port.
abbrev pub all_read : Atoi → List Found → List ℕ → List ℕ → Commands
all_read atoi options hostname port = record (after_options atoi options default_commands) {
  hostname = some hostname;
  port = atoi port;
}

pub interpret_lem :
    (atoi : Atoi) (calls : ℕ → Getopt) (options : List Found) (hostname port : List ℕ)
    → Reads calls options hostname port
    → AreTold atoi hostname port
    → interpret atoi calls (3 + 2 * length options) 0 (3 + 2 * length options) 1 default_commands
      ≡ done (some (all_read atoi options hostname port))
interpret_lem atoi calls options hostname port r told =
    let k : ℕ = length options in
    let argc : ℕ = 3 + 2 * k in
    let c : Commands = after_options atoi options default_commands in
    let c1 : Commands = record c { hostname = some hostname } in
    interpret_options atoi calls options argc (suc (suc (1 + k))) 0 k argc 1 (1 + 2 * k)
      default_commands r.are_options (λ n. ap (λ l. (calls l).found) (omega arith) ∙ r.found n)
      (omega arith) (omega arith) (omega arith) (omega arith)
    ∙ interpret_moves atoi calls other (suc (1 + k)) k argc (1 + 2 * k) 1 c c1
        (r.found k ∙ found_at-past options k (omega arith))
        (taken_hostname atoi (calls k) (1 + 2 * k) hostname port c told (r.granted k) (
          ap (λ l. get_elem? l (1 + 2 * k)) (r.left k (omega arith))
          ∙ get_elem?-append r.words (port ∷ []) hostname (1 + 2 * k) (omega (arith, r.two_each))))
        (omega arith)
    ∙ interpret_moves atoi calls other (1 + k) (k + 1) argc (1 + 2 * k + 1) 1 c1
        (all_read atoi options hostname port)
        (r.found (k + 1) ∙ found_at-past options (k + 1) (omega arith))
        (taken_port atoi (calls (k + 1)) (1 + 2 * k + 1) hostname port c1 told (
          ap (λ l. get_elem? l (1 + 2 * k + 1))
            (r.left (k + 1) (omega arith) ∙ sym (append_assoc r.words (hostname ∷ []) (port ∷ [])))
          ∙ get_elem?-append (r.words ++ (hostname ∷ [])) [] port (1 + 2 * k + 1)
              (omega (arith, r.two_each, length-append r.words (hostname ∷ [])))))
        (omega arith)
    ∙ interpret_end atoi calls (1 + k) (k + 1 + 1) argc (1 + 2 * k + 1 + 1)
        (all_read atoi options hostname port) (omega arith)
