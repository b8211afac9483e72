-- ===== src/Threads/Params/CommandLine.antt =====
-- `parseParams` of `threads/common.h` on well-formed command lines.
use zmqtests.Base.{
  length-append, not, ◌||◌, ◌∙◌, ℕ, zero, suc, ◌≤◌, ◌≡◌, ◌≢◌, refl, Bool, true, List, [], ◌∷◌, ◌++◌,
  length, arith,
}
use zmqtests.Base.Int.{ℤ, pos, IsInt}
use zmqtests.Base.Text.{Bytes, bytes, str_eq}
use zmqtests.Clib.Compare.{strcasecmp, to_lower}
use zmqtests.Clib.Decimal.{decimal, atoi-decimal}
use zmqtests.Params.{parsed, running}
use zmqtests.Params.Line.{Shrinks}
use zmqtests.Threads.Globals.{Globals}
use zmqtests.Threads.Params.{read_option, read_options, parse_params}

-- What a user can ask for.
pub data Wish : Type 0 where
  sleep_wish : ℤ → Wish
  msgs_wish : ℤ → Wish
  linger_wish : ℤ → Wish
  rate_wish : ℤ → Wish
  threads_wish : ℤ → Wish
  debug_wish mutex_wish poll_wish nowait_wish quiet_wish : Wish

abbrev pub words : Wish → List Bytes
words (sleep_wish v) = bytes "-sleep" ∷ decimal v ∷ []
words (msgs_wish v) = bytes "-msgs" ∷ decimal v ∷ []
words (linger_wish v) = bytes "-linger" ∷ decimal v ∷ []
words (rate_wish v) = bytes "-rate" ∷ decimal v ∷ []
words (threads_wish v) = bytes "-threads" ∷ decimal v ∷ []
words debug_wish = bytes "-debug" ∷ []
words mutex_wish = bytes "-mutex" ∷ []
words poll_wish = bytes "-poll" ∷ []
words nowait_wish = bytes "-nowait" ∷ []
words quiet_wish = bytes "-quiet" ∷ []

abbrev pub command_line : List Wish → List Bytes
command_line [] = []
command_line (x ∷ xs) = words x ++ command_line xs

-- The numbers are of type `int`, and no rate is 0, which the code would divide by.
abbrev pub IsFit : Wish → Type 0
IsFit (sleep_wish v) = IsInt v
IsFit (msgs_wish v) = IsInt v
IsFit (linger_wish v) = IsInt v
IsFit (rate_wish v) = IsInt v × (v ≢ pos 0)
IsFit (threads_wish v) = IsInt v
IsFit x = Unit {0}

abbrev pub AreFit : List Wish → Type 0
AreFit [] = Unit {0}
AreFit (x ∷ xs) = IsFit x × AreFit xs

length-words : (x : Wish) → 1 ≤ length (words x)
length-words x = ground arith

-- The argument is none of the ten options.
abbrev pub is_no_option : Bytes → Bool
is_no_option a = not (
    strcasecmp (bytes "-sleep") a
    || strcasecmp (bytes "-msgs") a
    || strcasecmp (bytes "-linger") a
    || strcasecmp (bytes "-rate") a
    || strcasecmp (bytes "-threads") a
    || str_eq (bytes "-debug") a
    || str_eq (bytes "-mutex") a
    || str_eq (bytes "-poll") a
    || str_eq (bytes "-nowait") a
    || str_eq (bytes "-quiet") a)

module _ (sleep_of_rate : ℤ → ℤ) where
  abbrev pub grant : Wish → Globals → Globals
  grant (sleep_wish v) g = record g { sleep_duration = v }
  grant (msgs_wish v) g = record g { num_msgs = v }
  grant (linger_wish v) g = record g { linger = v }
  grant (rate_wish v) g = record g { msg_sleep = sleep_of_rate v }
  grant (threads_wish v) g = record g { num_threads = v }
  grant debug_wish g = record g { debug_flag = true }
  grant mutex_wish g = record g { mutex_flag = true }
  grant poll_wish g = record g { poll_flag = true }
  grant nowait_wish g = record g { dont_wait_flag = true }
  grant quiet_wish g = record g { quiet_flag = true }

  abbrev pub grant_all : List Wish → Globals → Globals
  grant_all [] g = g
  grant_all (x ∷ xs) g = grant_all xs (grant x g)

  read_options-wish :
      (fuel : ℕ) (g : Globals) (x : Wish) (rest : List Bytes)
      → IsFit x
      → read_options sleep_of_rate (suc fuel) g (words x ++ rest)
        ≡ read_options sleep_of_rate fuel (grant x g) rest
  unfolding read_options read_option strcasecmp str_eq to_lower
  read_options-wish fuel g (sleep_wish v) rest fit = rw (atoi-decimal v) (ground (arith, fit))
  read_options-wish fuel g (msgs_wish v) rest fit = rw (atoi-decimal v) (ground (arith, fit))
  read_options-wish fuel g (linger_wish v) rest fit = rw (atoi-decimal v) (ground (arith, fit))
  read_options-wish fuel g (rate_wish v) rest fit = rw (atoi-decimal v) (ground (arith, fit))
  read_options-wish fuel g (threads_wish v) rest fit = rw (atoi-decimal v) (ground (arith, fit))
  read_options-wish fuel g x rest fit = refl

  read_options-line :
      (fuel : ℕ) (g : Globals) (xs : List Wish)
      → length (command_line xs) ≤ fuel
      → AreFit xs
      → read_options sleep_of_rate fuel g (command_line xs) ≡ parsed (grant_all xs g)
  unfolding read_options
  read_options-line fuel g [] h fit = refl
  read_options-line zero g (x ∷ xs) h fit =
      absurd (ground (arith, length-words x, length-append (words x) (command_line xs)))
  read_options-line (suc fuel) g (x ∷ xs) h (one, others) =
      read_options-wish fuel g x (command_line xs) one
      ∙ read_options-line fuel (grant x g) xs
          (ground (arith, length-words x, length-append (words x) (command_line xs))) others

-- `parseParams` on the name of the program and the options of any wishes, with their numbers as
-- decimals and in any order: it grants the wishes one after another, so that the last one counts
-- where two concern the same variable, and it changes nothing else. The conditions are that the name
-- of the program is none of the options, that the numbers are of type `int` and that no rate is 0.
pub parse_params-command_line :
    (sleep_of_rate : ℤ → ℤ) (g : Globals) (program : Bytes) (xs : List Wish)
    → is_no_option program ≡ true
    → AreFit xs
    → parse_params sleep_of_rate g (program ∷ command_line xs)
      ≡ parsed (grant_all sleep_of_rate xs g)
unfolding parse_params read_options read_option
parse_params-command_line sleep_of_rate g program xs plain fit =
    ground
      (arith, read_options-line sleep_of_rate (length (command_line xs)) g xs (omega arith) fit)

read_option-Shorter :
    (sleep_of_rate : ℤ → ℤ) (g : Globals) (arg : Bytes) (args : List Bytes)
    → Shrinks args (read_option sleep_of_rate g arg args)
unfolding read_option
read_option-Shorter sleep_of_rate g arg args = ground arith

read_options-ends :
    (sleep_of_rate : ℤ → ℤ) (fuel : ℕ) (g : Globals) (argv : List Bytes)
    → length argv ≤ fuel
    → read_options sleep_of_rate fuel g argv ≢ running
unfolding read_options
read_options-ends sleep_of_rate fuel g [] h = ground arith
read_options-ends sleep_of_rate zero g (a ∷ args) h = absurd (omega arith)
read_options-ends sleep_of_rate (suc fuel) g (a ∷ args) h =
    grind (arith, read_option-Shorter sleep_of_rate g a args, read_options-ends sleep_of_rate fuel)

-- On every command line `parseParams` comes to its end, or to a place where it has no meaning: the
-- NULL behind an option whose value is missing, a number outside `int`, or a rate of 0. It makes at
-- most one round for each argument.
pub parse_params-ends :
    (sleep_of_rate : ℤ → ℤ) (g : Globals) (argv : List Bytes)
    → parse_params sleep_of_rate g argv ≢ running
unfolding parse_params
parse_params-ends sleep_of_rate g argv =
    read_options-ends sleep_of_rate (length argv) g argv (omega arith)
