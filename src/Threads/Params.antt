-- ===== src/Threads/Params.antt =====
-- `parseParams` of `threads/common.h`: an `else if` chain for each argument, from the name of the
-- program on. Options with a value are compared without case and the others exactly. The sleep that
-- `-rate` asks for, `(1.0 / rate) * 1000000` cut to an `int`, is computed in floating point, which
-- is a parameter here.
pub mod CommandLine
use zmqtests.Base.{ℕ, zero, suc, Bool, true, false, List, [], ◌∷◌, length, if◌then◌else◌}
use zmqtests.Base.Int.{ℤ, pos, is_int, eqb_ℤ}
use zmqtests.Base.Text.{Bytes, bytes, str_eq}
use zmqtests.Clib.Compare.{strcasecmp}
use zmqtests.Clib.Decimal.{atoi}
use zmqtests.Params.{Parsed, ◌>>=◌, parsed, undefined, running}
use zmqtests.Threads.Globals.{Globals}

-- `atoi (argv[++i])`, which has no meaning for a number outside `int`
abbrev pub with_value : (ℤ → Globals) → List Bytes → Parsed (Globals × List Bytes)
with_value set [] = undefined
with_value set (v ∷ args) = if is_int (atoi v) then parsed (set (atoi v), args) else undefined

-- The same for a rate: the quotient by 0 has no value of type `int`.
abbrev pub with_rate : (ℤ → Globals) → List Bytes → Parsed (Globals × List Bytes)
with_rate set [] = undefined
with_rate set (v ∷ args) =
    if eqb_ℤ (atoi v) (pos 0)
    then undefined
    else if is_int (atoi v)
    then parsed (set (atoi v), args)
    else undefined

module _ (sleep_of_rate : ℤ → ℤ) where
  -- The body of the loop at `arg`, and the arguments behind those that it has read.
  unfoldable pub read_option : Globals → Bytes → List Bytes → Parsed (Globals × List Bytes)
  read_option g arg args =
      if strcasecmp (bytes "-sleep") arg
      then with_value (λ v. record g { sleep_duration = v }) args
      else if strcasecmp (bytes "-msgs") arg
      then with_value (λ v. record g { num_msgs = v }) args
      else if strcasecmp (bytes "-linger") arg
      then with_value (λ v. record g { linger = v }) args
      else if strcasecmp (bytes "-rate") arg
      then with_rate (λ v. record g { msg_sleep = sleep_of_rate v }) args
      else if strcasecmp (bytes "-threads") arg
      then with_value (λ v. record g { num_threads = v }) args
      else if str_eq (bytes "-debug") arg
      then parsed (record g { debug_flag = true }, args)
      else if str_eq (bytes "-mutex") arg
      then parsed (record g { mutex_flag = true }, args)
      else if str_eq (bytes "-poll") arg
      then parsed (record g { poll_flag = true }, args)
      else if str_eq (bytes "-nowait") arg
      then parsed (record g { dont_wait_flag = true }, args)
      else if str_eq (bytes "-quiet") arg
      then parsed (record g { quiet_flag = true }, args)
      else parsed (g, args)

  -- The loop with fuel.
  unfoldable pub read_options : ℕ → Globals → List Bytes → Parsed Globals
  read_options fuel g [] = parsed g
  read_options zero g (arg ∷ args) = running
  read_options (suc fuel) g (arg ∷ args) = do r ← read_option g arg args; read_options fuel r.0 r.1

  unfoldable pub parse_params : Globals → List Bytes → Parsed Globals
  unfolding read_options
  parse_params g argv = read_options (length argv) g argv
