-- ===== src/Command.antt =====
-- The command lines of the two programs, `parse_commands` of src/receiver.c and of src/sender.c, and
-- the output file, `create_file` of src/utils.c.
-- A string of C is the list of its bytes in front of the final zero. What `getopt` finds is an
-- argument: the options in order, and the arguments from `optind` on.
pub mod Parsed
pub mod Named
mod Tests
use lingi1341_trtp_gr.Base.{
  ℕ, zero, ◌+◌, Bool, true, false, Option, none, some, List, [], ◌∷◌, length, take, ltb,
  if◌then◌else◌,
}
use lingi1341_trtp_gr.Base.Int.{ℤ, pos, negsuc}
use lingi1341_trtp_gr.Base.Run.{Run, fault, exit_failure, done, ◌>>=◌}

-- `atoi`, whose result on what is no number is 0.
abbrev pub Atoi : Type 0
Atoi = List ℕ → ℤ

abbrev pub is_zero : ℤ → Bool
is_zero (pos zero) = true
is_zero _ = false

-- `malloc(sizeof(argv[index]))`, of the 8 bytes of a pointer, and `strcpy` into them.
unfoldable pub copy_argument : Bool → List ℕ → Run (List ℕ)
copy_argument granted text =
    if granted then if ltb 8 (length text + 1) then fault else done text else exit_failure

-- The global variables of the receiver.
pub record ReceiverOptions : Type 0 where
  pub format : Option (List ℕ)
  pub connections : ℤ
  pub hostname : Option (List ℕ)
  pub port : ℤ

-- The options `-o` and `-m` with their arguments, and those that are not known.
pub data ReceiverOption : Type 0 where
  option_o : List ℕ → ReceiverOption
  option_m : List ℕ → ReceiverOption
  unknown : ReceiverOption

unfoldable pub read_receiver_options :
    Atoi → List ReceiverOption → ReceiverOptions → Run ReceiverOptions
read_receiver_options atoi [] c = done c
read_receiver_options atoi (option_o text ∷ later) c =
    read_receiver_options atoi later (record c { format = some text })
read_receiver_options atoi (option_m text ∷ later) c =
    let rest : Run ReceiverOptions =
      read_receiver_options atoi later (record c { connections = atoi text }) in
    if is_zero (atoi text) then exit_failure else rest
read_receiver_options atoi (unknown ∷ later) c = read_receiver_options atoi later c

-- The result, and the global variables.
unfoldable pub parse_receiver_commands :
    Atoi → Bool → List ReceiverOption → List (List ℕ) → ReceiverOptions → Run (ℤ × ReceiverOptions)
parse_receiver_commands atoi granted options (hostname ∷ port ∷ []) c = do
  c1 ← read_receiver_options atoi options c
  name ← copy_argument granted hostname
  if is_zero (atoi port)
      then exit_failure
      else done (pos 1, record c1 { hostname = some name; port = atoi port })
parse_receiver_commands atoi granted options arguments c = do
  c1 ← read_receiver_options atoi options c
  done (negsuc 0, c1)

-- The global variables of the sender.
pub record SenderOptions : Type 0 where
  pub filename : Option (List ℕ)
  pub hostname : Option (List ℕ)
  pub port : ℤ

pub data SenderOption : Type 0 where
  option_f : List ℕ → SenderOption
  unknown_one : SenderOption

unfoldable pub read_sender_options : Bool → List SenderOption → SenderOptions → Run SenderOptions
read_sender_options granted [] c = done c
read_sender_options granted (option_f text ∷ later) c = do
  name ← copy_argument granted text
  read_sender_options granted later (record c { filename = some name })
read_sender_options granted (unknown_one ∷ later) c = read_sender_options granted later c

unfoldable pub parse_sender_commands :
    Atoi → Bool → List SenderOption → List (List ℕ) → SenderOptions → Run (ℤ × SenderOptions)
parse_sender_commands atoi granted options (hostname ∷ port ∷ []) c = do
  c1 ← read_sender_options granted options c
  name ← copy_argument granted hostname
  if is_zero (atoi port)
      then exit_failure
      else done (pos 1, record c1 { hostname = some name; port = atoi port })
parse_sender_commands atoi granted options arguments c = do
  c1 ← read_sender_options granted options c
  done (negsuc 0, c1)

-- What `printf` makes of a format and a number; `none` when it fails.
abbrev pub Printf : Type 0
Printf = List ℕ → ℕ → Option (List ℕ)

-- `snprintf` writes at most `strlen(format)` bytes and a zero into an array of `strlen(format)`
-- bytes, and returns the length of the whole text. The result is the new number and the name of the
-- file opened, or `none` when `fopen` fails, which the test on `fp` and not `*fp` does not see.
unfoldable pub create_file : Printf → Bool → List ℕ → ℕ → Run (ℕ × Option (List ℕ))
create_file printf opened format iout = elim (printf format iout) [
  | none ↦ exit_failure
  | some text ↦
      let filename : List ℕ = take (length format) text in
      if ltb (length format) (length filename + 1)
      then fault
      else if ltb 0 (length text)
      then done (iout + 1, if opened then some filename else none)
      else exit_failure
]
