-- ===== src/Threads/Schedule.antt =====
-- The control threads and the main loop at work together: `commandLoop` of each thread, the
-- messages on their way, and `processControlMsg` in the main loop (`threads/common.h`).
pub mod Order
pub mod Counters
pub mod Start
pub mod Rounds
pub mod ExitCode
use zmqtests.Base.{ℕ, ◌≡◌, Bool, true, false, List, [], ◌∷◌, ◌++◌, ◌==◌, if◌then◌else◌}
use zmqtests.Base.Int.{pos, ltb_ℤ}
use zmqtests.Zmq.{Addr, ControlMsg}
use zmqtests.Threads.Globals.{Globals, exit_command}
use zmqtests.Threads.Control.{process_control_msg}
use zmqtests.Threads.Sending.{next_msg_num, count_sent}
use zmqtests.Threads.Sending.Sequence.{ping}
use zmqtests.Threads.Detection.{numbers, is_ping_of}

-- `working` tells the threads whose command loop has not ended. The messages are on their way, or
-- the main loop has received them, or they are lost.
pub record Config : Type 0 where
  pub globals : Globals
  pub working : Addr → Bool
  pub queue : List ControlMsg
  pub arrived : List ControlMsg
  pub lost : List ControlMsg

abbrev pub without : Addr → (Addr → Bool) → Addr → Bool
without t working u = if t == u then false else working u

-- A round of the command loop of a thread, which ends behind the last message.
abbrev pub after_send : Addr → Config → Config
after_send t c = record c {
  globals = count_sent c.globals t;
  working =
      if ltb_ℤ (pos (next_msg_num c.globals t)) c.globals.num_msgs
      then c.working
      else without t c.working;
  queue = c.queue ++ ping t (next_msg_num c.globals t) ∷ [];
}

-- The main loop receives a message that stood between these.
abbrev pub after_receive : List ControlMsg → ControlMsg → List ControlMsg → Config → Config
after_receive before m after c = record c {
  globals = process_control_msg c.globals m;
  queue = before ++ after;
  arrived = c.arrived ++ m ∷ [];
}

abbrev pub after_loss : List ControlMsg → ControlMsg → List ControlMsg → Config → Config
after_loss before m after c = record c { queue = before ++ after; lost = m ∷ c.lost }

abbrev pub exit_msg : ControlMsg
exit_msg = record { command = exit_command; void_arg = 0; long_arg = 0 }

abbrev pub after_shutdown : Config → Config
after_shutdown c = record c { queue = c.queue ++ exit_msg ∷ [] }

-- Messages of one thread are not exchanged, but those of two threads may be, and each message may
-- be lost. The message to shut down is sent when the command loops have ended.
pub data Step : Config → Config → Type 0 where
  send :
      (t : Addr) (c : Config)
      → c.globals.keep_going ≡ true
      → c.working t ≡ true
      → Step c (after_send t c)
  receive :
      (before : List ControlMsg) (m : ControlMsg) (after : List ControlMsg) (c : Config)
      → c.globals.keep_going ≡ true
      → c.queue ≡ before ++ m ∷ after
      → ((t : Addr) → is_ping_of t m ≡ true → numbers t before ≡ [])
      → Step c (after_receive before m after c)
  lose :
      (before : List ControlMsg) (m : ControlMsg) (after : List ControlMsg) (c : Config)
      → c.queue ≡ before ++ m ∷ after
      → Step c (after_loss before m after c)
  shut : (c : Config) → ((t : Addr) → c.working t ≡ false) → Step c (after_shutdown c)

pub data Run (from : Config) : Config → Type 0 where
  here : Run from from
  one_more : {c d : Config} → Run from c → Step c d → Run from d

-- A property that holds at the start and is kept by every step holds of all that is reached.
pub Run-keeps :
    (P : Config → Type 0)
    → ((c d : Config) → Step c d → P c → P d)
    → (from to : Config) → Run from to
    → P from
    → P to
Run-keeps P step from to here p = p
Run-keeps P step from to (one_more {c} {d} r s) p = step c d s (Run-keeps P step from c r p)
