-- ===== src/Threads/Schedule/ExitCode.antt =====
-- What `main` of the threads programs returns, whatever the order in which the control threads and
-- the main loop work (`threads/pubsub.cpp`, `threads/pushpull.cpp`, `threads/pairs.cpp`,
-- `threads/common.h`).
use zmqtests.Base.{
  ℕ, suc, ◌<◌, ◌≡◌, ◌≢◌, ◌↔◌, refl, sym, ap, ◌∙◌, inl, inr, false, List, [], ◌∷◌, Option-cases,
  length, arith,
}
use mathlib.Core.List.{append-nil}
use zmqtests.Base.Int.{pos}
use zmqtests.Base.Table.{lookup, at, AllValues, lookup-AllValues}
use zmqtests.Zmq.{Addr, Env, World, Outcome, done}
use zmqtests.Zmq.Monad.{M}
use zmqtests.Threads.Globals.{addr_key, Globals}
use zmqtests.Threads.Delivery.{Succeeds}
use zmqtests.Threads.Detection.{process_all, numbers, count_from, length-count_from}
use zmqtests.Threads.Main.{client_server_start, client_server_finish, thread_addr, register}
use zmqtests.Threads.Main.Parts.{MakesContext, with_context, start-vars, client_server_start-vars}
use zmqtests.Threads.Main.EndToEnd.{
  IsMain, pub_sub, push_pull, pairs, main-eq-zero, client_server_finish-eq-zero,
}
use zmqtests.Threads.Schedule.{Config, Run, Run-keeps}
use zmqtests.Threads.Schedule.Order.{IsKept, Step-IsKept}
use zmqtests.Threads.Schedule.Counters.{with_sent, IsCounted, Step-IsCounted}
use zmqtests.Threads.Schedule.Start.{
  at_work, is_thread-own, is_thread-found, entry_of_thread, thread_of_entry, start-IsKept,
  start-IsCounted,
}

empty_of_length : (xs : List ℕ) → length xs ≡ 0 → xs ≡ []
empty_of_length [] e = refl
empty_of_length (x ∷ xs) e = absurd (omega (arith, e))

-- All pings of a thread have arrived exactly when none of them is on its way or lost.
arrived_iff :
    (t : Addr) (n : ℕ) (c : Config)
    → IsKept t c
    → at 0 t c.globals.max_control_msg_sent ≡ n
    → (numbers t c.arrived ≡ count_from 0 n) ↔ ((numbers t c.queue ≡ []) × (numbers t c.lost ≡ []))
arrived_iff t n c k sent = (
  λ e. (
    empty_of_length (numbers t c.queue) (ground (arith, e, k.count, sent, length-count_from 0 n)),
    empty_of_length (numbers t c.lost) (ground (arith, e, k.count, sent, length-count_from 0 n)),
  ),
  λ h. ground (arith, k.order h.1, h.0, sent, append-nil (numbers t c.arrived)),
)

begin-vars :
    (begin : Addr → M Globals (Addr × List Addr)) (end : Addr → List Addr → M Globals ℕ)
    → IsMain begin end
    → (env : Env) (a : Addr) (k : ℕ) (w : World Globals) → Succeeds env
    → MakesContext env
    → w.vars.num_threads ≡ pos k
    → (begin a env w).1.vars ≡ register a 0 k (with_context env w)
begin-vars begin end pub_sub env a k w up new threads = (start-vars env a k w up new threads).0
begin-vars begin end push_pull env a k w up new threads = (start-vars env a k w up new threads).0
begin-vars begin end pairs env a k w up new threads = (start-vars env a k w up new threads).0

-- What is left to say when all command loops have ended.
module _ (a : Addr) (n k : ℕ) (g : Globals) (empty : g.max_control_msg_received ≡ [])
    (empty' : g.max_control_msg_sent ≡ []) (asked : g.num_msgs ≡ pos (suc n)) (c : Config)
    (run : Run (at_work a k (register a 0 k g)) c) (over : (t : Addr) → c.working t ≡ false) where
  kept : (t : Addr) → IsKept t c
  kept t = Run-keeps (IsKept t) (Step-IsKept t) _ c run (start-IsKept a n k g empty empty' t)

  counted : IsCounted (register a 0 k g) (suc n) c
  counted =
      Run-keeps (IsCounted (register a 0 k g) (suc n)) (Step-IsCounted (register a 0 k g) (suc n)) _
        c run (start-IsCounted a n k g empty empty' asked)

  all_sent : AllValues (λ _ v. v ≡ suc n) c.globals.max_control_msg_sent
  all_sent =
      lookup-AllValues (λ _ v. v ≡ suc n) c.globals.max_control_msg_sent counted.distinct
        (λ t v e. counted.idle t v (over t) e)

  only_threads : (t : Addr) → ((i : ℕ) → i < k → t ≢ thread_addr a i) → numbers t c.arrived ≡ []
  unfolding at
  only_threads t absent = elim (Option-cases (lookup t (register a 0 k g).max_control_msg_sent)) [
    | inl e ↦
        empty_of_length (numbers t c.arrived)
          (ground (arith, (kept t).count, (counted.others t e).1))
    | inr e ↦
        let own = is_thread-found a k t (thread_of_entry a n k g empty empty' t e.0 e.1).1 in
        absurd (absent own.0 own.1 own.2)
  ]

  thread_iff :
      (i : ℕ)
      → i < k
      → (numbers (thread_addr a i) c.arrived ≡ count_from 0 (suc n))
        ↔ ((numbers (thread_addr a i) c.queue ≡ []) × (numbers (thread_addr a i) c.lost ≡ []))
  thread_iff i p =
      let t = thread_addr a i in
      let entry = entry_of_thread a n k g empty empty' t (is_thread-own a k i p) in
      arrived_iff t (suc n) c (kept t) (counted.ended t 0 (over t) entry)

  -- A program that returns 0 exactly when all pings have arrived.
  exit_iff :
      (result : Outcome ℕ)
      → (result ≡ done 0)
        ↔ ((i : ℕ) → i < k → numbers (thread_addr a i) c.arrived ≡ count_from 0 (suc n))
      → (result ≡ done 0) ↔ (
          (i : ℕ)
          → i < k
          → (numbers (thread_addr a i) c.queue ≡ []) × (numbers (thread_addr a i) c.lost ≡ []))
  exit_iff result code =
      (λ e i p. (thread_iff i p).0 (code.0 e i p), λ h. code.1 (λ i p. (thread_iff i p).1 (h i p)))

  -- The globals at the end, in terms of those at the start.
  globals_left :
      (g0 : Globals)
      → g0 ≡ register a 0 k g
      → c.globals ≡ process_all (with_sent g0 c.globals.max_control_msg_sent) c.arrived
  globals_left g0 vars =
      counted.same
      ∙ sym (ap (λ v. process_all (with_sent v c.globals.max_control_msg_sent) c.arrived) vars)

-- `main` of `pubsub.cpp`, `pushpull.cpp` and `pairs.cpp` with its control threads and its main loop
-- at work in any order: each control thread sends its pings in rounds of `commandLoop`, the main
-- loop receives them in any order that keeps those of one thread in theirs, messages may be lost,
-- and the message to shut down may overtake pings. When all command loops have ended, `main`
-- returns 0 exactly when no ping of a control thread is lost or still on its way. The conditions:
-- every call of `main` succeeds, at least one message is asked for, the number of threads is not
-- negative, and the counters are empty and no failure is noted at the start.
pub main-eq-zero_iff :
    (begin : Addr → M Globals (Addr × List Addr)) (end : Addr → List Addr → M Globals ℕ)
    → IsMain begin end
    → (env env' : Env) (a : Addr) (n k : ℕ) (w w' : World Globals) (c : Config) (main_thread : Addr)
      (handles : List Addr)
    → Succeeds env
    → MakesContext env
    → Succeeds env'
    → w.vars.num_threads ≡ pos k
    → w.vars.num_msgs ≡ pos (suc n)
    → w.vars.failed ≡ false
    → w.vars.max_control_msg_received ≡ []
    → w.vars.max_control_msg_sent ≡ []
    → Run (at_work a k (begin a env w).1.vars) c
    → ((t : Addr) → c.working t ≡ false)
    → w'.vars ≡ c.globals
    → ((end main_thread handles env' w').0 ≡ done 0) ↔ (
        (i : ℕ)
        → i < k
        → (numbers (thread_addr a i) c.queue ≡ []) × (numbers (thread_addr a i) c.lost ≡ []))
main-eq-zero_iff begin end is env env' a n k w w' c main_thread handles up new up' threads asked ok
      empty empty' run over after =
    let g = with_context env w in
    let vars = begin-vars begin end is env a k w up new threads in
    let run' : Run (at_work a k (register a 0 k g)) c = rw vars at run in
    let code =
      main-eq-zero begin end is env env' a (suc n) k w w' c.globals.max_control_msg_sent c.arrived
        main_thread handles up new up' threads asked ok empty
        (all_sent a n k g empty empty' asked c run' over)
        (only_threads a n k g empty empty' asked c run' over)
        (after ∙ globals_left a n k g empty empty' asked c run' over _ vars) in
    exit_iff a n k g empty empty' asked c run' over _ code.1

-- The same of `main` of `clientserver.cpp`, which makes and closes two control sockets of its own: when
-- all command loops have ended, whatever the order of the rounds, receipts and losses, it returns 0
-- exactly when no ping of a control thread is lost or still on its way. The conditions: every call
-- of `main` succeeds, at least one message is asked for, the number of threads is not negative, and
-- the counters are empty and no failure is noted at the start.
pub client_server_finish-eq-zero_iff :
    (env env' : Env) (a : Addr) (n k : ℕ) (w w' : World Globals) (c : Config)
    (control_sub control_pub main_thread : Addr) (handles : List Addr)
    → Succeeds env
    → MakesContext env
    → Succeeds env'
    → w.vars.num_threads ≡ pos k
    → w.vars.num_msgs ≡ pos (suc n)
    → w.vars.failed ≡ false
    → w.vars.max_control_msg_received ≡ []
    → w.vars.max_control_msg_sent ≡ []
    → Run (at_work a k (client_server_start a env w).1.vars) c
    → ((t : Addr) → c.working t ≡ false)
    → w'.vars ≡ c.globals
    → ((client_server_finish control_sub control_pub main_thread handles env' w').0 ≡ done 0) ↔ (
        (i : ℕ)
        → i < k
        → (numbers (thread_addr a i) c.queue ≡ []) × (numbers (thread_addr a i) c.lost ≡ []))
client_server_finish-eq-zero_iff env env' a n k w w' c control_sub control_pub main_thread handles
      up new up' threads asked ok empty empty' run over after =
    let g = with_context env w in
    let vars = (client_server_start-vars env a k w up new threads).0 in
    let run' : Run (at_work a k (register a 0 k g)) c = rw vars at run in
    let code =
      client_server_finish-eq-zero env env' a (suc n) k w w' c.globals.max_control_msg_sent
        c.arrived control_sub control_pub main_thread handles up new up' threads asked ok empty
        (all_sent a n k g empty empty' asked c run' over)
        (only_threads a n k g empty empty' asked c run' over)
        (after ∙ globals_left a n k g empty empty' asked c run' over _ vars) in
    exit_iff a n k g empty empty' asked c run' over _ code.1
