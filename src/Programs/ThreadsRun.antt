-- ===== src/Programs/ThreadsRun.antt =====
-- The threads programs from their command line to their exit code.
use zmqtests.Base.{ℕ, suc, ◌<◌, ◌≤◌, ◌≡◌, ◌↔◌, refl, true, false, List, [], ◌∷◌, arith}
use zmqtests.Base.Int.{ℤ, pos, pos_part, neg_part}
use zmqtests.Base.Text.{Bytes}
use zmqtests.Zmq.{Addr, signal, zmq_version, Env, World, done}
use zmqtests.Zmq.Monad.{M}
use zmqtests.Threads.Globals.{Globals, initial}
use zmqtests.Threads.Delivery.{Succeeds}
use zmqtests.Threads.Detection.{numbers}
use zmqtests.Threads.Main.{thread_addr}
use zmqtests.Threads.Main.Parts.{MakesContext}
use zmqtests.Threads.Main.EndToEnd.{IsMain}
use zmqtests.Threads.Params.CommandLine.{
  Wish, AreFit, command_line, is_no_option, grant, grant_all, parse_params-command_line,
}
use zmqtests.Threads.Schedule.{Config, Run}
use zmqtests.Threads.Schedule.Start.{at_work}
use zmqtests.Threads.Schedule.ExitCode.{main-eq-zero_iff}
use zmqtests.Programs.{print_version, threads_start}

-- What no option changes.
grant_all-others :
    (sleep_of_rate : ℤ → ℤ) (xs : List Wish) (g : Globals)
    → ((grant_all sleep_of_rate xs g).failed ≡ g.failed)
      × ((grant_all sleep_of_rate xs g).max_control_msg_received ≡ g.max_control_msg_received)
      × ((grant_all sleep_of_rate xs g).max_control_msg_sent ≡ g.max_control_msg_sent)
grant_all-others sleep_of_rate [] g = (refl, refl, refl)
grant_all-others sleep_of_rate (x ∷ xs) g =
    let rest = grant_all-others sleep_of_rate xs (grant sleep_of_rate x g) in ground (arith, rest)

-- Behind the options and the calls before `begin`.
abbrev granted : (ℤ → ℤ) → List Wish → World Globals → World Globals
granted sleep_of_rate xs w = record w {
  calls = signal ∷ zmq_version ∷ w.calls;
  vars = grant_all sleep_of_rate xs w.vars;
}

pub threads_start-granted :
    {R : Type 0} (sleep_of_rate : ℤ → ℤ) (begin : Addr → M Globals R) (program : Bytes)
    (xs : List Wish) (a : Addr) (env : Env) (w : World Globals)
    → is_no_option program ≡ true
    → AreFit xs
    → threads_start sleep_of_rate begin (program ∷ command_line xs) a env w
      ≡ begin a env (granted sleep_of_rate xs w)
unfolding threads_start print_version
threads_start-granted sleep_of_rate begin program xs a env w plain fit =
    rw (parse_params-command_line sleep_of_rate w.vars program xs plain fit) refl

-- `pubsub.cpp`, `pushpull.cpp` and `pairs.cpp` from the command line to the exit code: the name of the
-- program and any options, of which the last ones ask for a number of threads that is not negative
-- and for at least one message. When all command loops have ended, whatever the order of the rounds,
-- receipts and losses, `main` returns 0 exactly when no ping of a control thread is lost or still on
-- its way. The other conditions: every call of `main` succeeds, the name of the program is none of
-- the options, the numbers of the options are of type `int`, no rate is 0, and the sleep is of at most 2147
-- seconds either way, so that its microseconds are of type `int` as well.
pub threads_start-eq-zero_iff :
    (begin : Addr → M Globals (Addr × List Addr)) (end : Addr → List Addr → M Globals ℕ)
    → IsMain begin end
    → (sleep_of_rate : ℤ → ℤ) (program : Bytes) (xs : List Wish) (env env' : Env) (a : Addr)
      (n k : ℕ) (w w' : World Globals) (c : Config) (main_thread : Addr) (handles : List Addr)
    → is_no_option program ≡ true
    → AreFit xs
    → w.vars ≡ initial
    → (grant_all sleep_of_rate xs initial).num_threads ≡ pos k
    → (grant_all sleep_of_rate xs initial).num_msgs ≡ pos (suc n)
    → pos_part (grant_all sleep_of_rate xs initial).sleep_duration ≤ 2147
    → neg_part (grant_all sleep_of_rate xs initial).sleep_duration ≤ 2147
    → Succeeds env
    → MakesContext env
    → Succeeds env'
    → Run
        (at_work a k (threads_start sleep_of_rate begin (program ∷ command_line xs) a env w).1.vars)
        c
    → ((t : Addr) → c.working t ≡ false)
    → w'.vars ≡ c.globals
    → ((end main_thread handles env' w').0 ≡ done 0) ↔ (
        (i : ℕ)
        → i < k
        → (numbers (thread_addr a i) c.queue ≡ []) × (numbers (thread_addr a i) c.lost ≡ []))
threads_start-eq-zero_iff begin end is sleep_of_rate program xs env env' a n k w w' c main_thread
      handles plain fit fresh threads asked most least up new up' run over after =
    let others = grant_all-others sleep_of_rate xs w.vars in
    main-eq-zero_iff begin end is env env' a n k (granted sleep_of_rate xs w) w' c main_thread
      handles up new up' (rw fresh threads) (rw fresh asked) (ground (arith, others.0, fresh))
      (ground (arith, others.1, fresh)) (ground (arith, others.2, fresh))
      (rw (threads_start-granted sleep_of_rate begin program xs a env w plain fit) at run) over
      after
