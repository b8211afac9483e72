-- ===== src/Params.antt =====
-- `parseParams` of the four params.c files: one loop over the arguments, whose body is a chain of
-- tests, one for each option. A test that succeeds may step to the next argument, which the tests
-- behind it then look at. The last element of `argv` is NULL: where the code reads through it, the
-- program has no meaning.
pub mod Line
pub mod Names
pub mod Issue3186
pub mod Reconnect
pub mod PingPong
use zmqtests.Base.{ℕ, zero, suc, Bool, List, [], ◌∷◌, length, if◌then◌else◌}
use zmqtests.Base.Int.{ℤ, is_int}
use zmqtests.Base.Text.{Bytes}
use zmqtests.Clib.Compare.{strncasecmp}
use zmqtests.Clib.Decimal.{atoi}

-- A test of the body: the option's name, and what it sets.
pub data Rule (O : Type 0) : Type 0 where
  flag : Bytes → (O → O) → Rule O
  number : Bytes → (ℤ → O → O) → Rule O
  text : Bytes → (Bytes → O → O) → Rule O

-- The options so far with `argv + i`, or undefined behaviour, or no fuel left.
pub data Parsed (R : Type 0) : Type 0 where
  parsed : R → Parsed R
  undefined : Parsed R
  running : Parsed R

infixl 5 ◌>>=◌
abbrev pub ◌>>=◌ : {R S : Type 0} → Parsed R → (R → Parsed S) → Parsed S
parsed r >>= f = f r
undefined >>= f = undefined
running >>= f = running

-- `strncasecmp (name, argv[i], strlen (argv[i])) == 0`
abbrev pub is_match : Bytes → Bytes → Bool
is_match name arg = strncasecmp name arg (length arg)

-- `i++`
abbrev pub behind : List Bytes → List Bytes
behind [] = []
behind (a ∷ args) = args

module _ {O : Type 0} where
  -- `atoi (argv[++i])`, which has no meaning for a number outside `int`, and the pointer taken by `argv[++i]`, which `log_msg` prints.
  unfoldable pub take_number : (ℤ → O → O) → O → List Bytes → Parsed (O × List Bytes)
  take_number set o [] = undefined
  take_number set o (v ∷ args) =
      if is_int (atoi v) then parsed (set (atoi v) o, v ∷ args) else undefined

  unfoldable pub take_text : (Bytes → O → O) → O → List Bytes → Parsed (O × List Bytes)
  take_text set o [] = undefined
  take_text set o (v ∷ args) = parsed (set v o, v ∷ args)

  -- One test, at the arguments from `argv[i]` on.
  unfoldable pub try : Rule O → O → List Bytes → Parsed (O × List Bytes)
  unfolding take_number take_text
  try rule o [] = undefined
  try (flag name set) o (a ∷ args) =
      if is_match name a then parsed (set o, a ∷ args) else parsed (o, a ∷ args)
  try (number name set) o (a ∷ args) =
      if is_match name a then take_number set o args else parsed (o, a ∷ args)
  try (text name set) o (a ∷ args) =
      if is_match name a then take_text set o args else parsed (o, a ∷ args)

  -- The body of the loop.
  unfoldable pub try_all : List (Rule O) → O → List Bytes → Parsed (O × List Bytes)
  try_all [] o args = parsed (o, args)
  try_all (rule ∷ rules) o args = do r ← try rule o args; try_all rules r.0 r.1

  -- The loop with fuel.
  unfoldable pub parse_loop : ℕ → List (Rule O) → O → List Bytes → Parsed O
  parse_loop fuel rules o [] = parsed o
  parse_loop zero rules o (a ∷ args) = running
  parse_loop (suc fuel) rules o (a ∷ args) = do
    r ← try_all rules o (a ∷ args)
    parse_loop fuel rules r.0 (behind r.1)

  -- The arguments behind the name of the program.
  unfoldable pub parse_args : List (Rule O) → O → List Bytes → Parsed O
  unfolding parse_loop
  parse_args rules o args = parse_loop (length args) rules o args
