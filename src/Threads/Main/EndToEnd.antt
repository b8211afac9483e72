-- ===== src/Threads/Main/EndToEnd.antt =====
-- `main` of the threads programs from its start to its exit code.
use zmqtests.Base.{ℕ, ◌<◌, ◌≡◌, ◌≢◌, ◌↔◌, ◌∙◌, ap, false, List, [], inl, inr, arith}
use zmqtests.Base.Int.{pos}
use zmqtests.Base.Table.{lookup, AllValues}
use zmqtests.Zmq.{Addr, ControlMsg, Env, World, done}
use zmqtests.Zmq.Monad.{M}
use zmqtests.Threads.Globals.{addr_key, Globals, Counters}
use zmqtests.Threads.Detection.{process_all, numbers, count_from}
use zmqtests.Threads.Results.{exit_code}
use zmqtests.Threads.ExitCode.{IsStarted, IsRegistered, OnlyRegistered, exit_zero_iff_delivered}
use zmqtests.Threads.Delivery.{Succeeds}
use zmqtests.Threads.Main.{
  pub_sub_start, pub_sub_finish, push_pull_start, push_pull_finish, pairs_start, pairs_finish,
  client_server_start, client_server_finish, thread_addr, register, start, finish,
}
use zmqtests.Threads.Main.Registered.{register-IsTable}
use zmqtests.Threads.Main.Parts.{
  MakesContext, IsReturned, with_context, start-vars, finish-code, client_server_start-vars,
  client_server_finish-code,
}

-- The threads have registered, and each of them has sent its pings.
started :
    (a : Addr) (n k : ℕ) (g : Globals) (sent : Counters)
    → g.num_msgs ≡ pos n
    → g.failed ≡ false
    → g.max_control_msg_received ≡ []
    → AllValues (λ _ v. v ≡ n) sent
    → IsStarted n (record (register a 0 k g) { max_control_msg_sent = sent })
unfolding lookup
started a n k g sent asked ok empty all =
    let table = register-IsTable a 0 k g in
    record {
      asked = ground (arith, table.others);
      not_failed = ground (arith, table.others);
      distinct = table.distinct (rw empty tt);
      at_zero = λ t v e. elim (table.found t v e) [
        | inl early ↦ ground (arith, early, empty)
        | inr own ↦ own.0
      ];
      all_sent = all;
    }

-- The globals that the control threads leave, but for what the main loop processes.
abbrev left : Addr → ℕ → Globals → Counters → Globals
left a k g sent = record (register a 0 k g) { max_control_msg_sent = sent }

module _ (a : Addr) (n k : ℕ) (g : Globals) (sent : Counters)
    (empty : g.max_control_msg_received ≡ []) (ms : List ControlMsg) where
  only_registered :
      ((t : Addr) → ((i : ℕ) → i < k → t ≢ thread_addr a i) → numbers t ms ≡ [])
      → OnlyRegistered (left a k g sent) ms
  only_registered only t absent = only t (λ i p e.
      ground (arith, absent, (register-IsTable a 0 k g).made i (omega arith) (omega arith)))

  IsRegistered-threads :
      ((t : Addr) → IsRegistered (left a k g sent) t → numbers t ms ≡ count_from 0 n)
      ↔ ((i : ℕ) → i < k → numbers (thread_addr a i) ms ≡ count_from 0 n)
  unfolding lookup
  IsRegistered-threads = (
    λ all i p.
        all (thread_addr a i) ((register-IsTable a 0 k g).made i (omega arith) (omega arith)),
    λ all t e. elim ((register-IsTable a 0 k g).found t 0 e) [
      | inl early ↦ absurd (ground (arith, early, empty))
      | inr own ↦ ground (arith, all own.1.index, own.1.high, own.1.here)
    ],
  )

-- What the exit code says of the globals that are there at the end.
exit_of_left :
    (a : Addr) (n k : ℕ) (g g' : Globals) (sent : Counters) (ms : List ControlMsg)
    → g.num_msgs ≡ pos n
    → g.failed ≡ false
    → g.max_control_msg_received ≡ []
    → AllValues (λ _ v. v ≡ n) sent
    → ((t : Addr) → ((i : ℕ) → i < k → t ≢ thread_addr a i) → numbers t ms ≡ [])
    → g' ≡ process_all (left a k g sent) ms
    → (done (exit_code g') ≡ done 0)
      ↔ ((i : ℕ) → i < k → numbers (thread_addr a i) ms ≡ count_from 0 n)
exit_of_left a n k g g' sent ms asked ok empty all only after =
    let code =
      exit_zero_iff_delivered (left a k g sent) n ms (started a n k g sent asked ok empty all)
        (only_registered a n k g sent empty ms only) in
    let named = IsRegistered-threads a n k g sent empty ms in
    (
      λ e. named.0 (code.0 (ground (arith, after, e))),
      λ d. ap (λ v. done (exit_code v)) after ∙ ap done (code.1 (named.1 d)),
    )

finish-eq-zero :
    (env env' : Env) (a : Addr) (n k : ℕ) (w w' : World Globals) (sent : Counters)
    (ms : List ControlMsg) (main_thread : Addr) (handles : List Addr)
    → Succeeds env
    → MakesContext env
    → Succeeds env'
    → w.vars.num_threads ≡ pos k
    → w.vars.num_msgs ≡ pos n
    → w.vars.failed ≡ false
    → w.vars.max_control_msg_received ≡ []
    → AllValues (λ _ v. v ≡ n) sent
    → ((t : Addr) → ((i : ℕ) → i < k → t ≢ thread_addr a i) → numbers t ms ≡ [])
    → w'.vars ≡ process_all (record ((start a env w).1.vars) { max_control_msg_sent = sent }) ms
    → IsReturned (start a env w).0
      × (((finish main_thread handles env' w').0 ≡ done 0)
          ↔ ((i : ℕ) → i < k → numbers (thread_addr a i) ms ≡ count_from 0 n))
finish-eq-zero env env' a n k w w' sent ms main_thread handles up new up' threads asked ok empty all
      only after =
    let begun = start-vars env a k w up new threads in
    let code =
      exit_of_left a n k (with_context env w) w'.vars sent ms asked ok empty all only
        (ground (arith, after, begun.0)) in
    (begun.1, rw (finish-code env' main_thread handles w' up') code)

-- The two parts of `main` of a program.
pub data IsMain
    : (Addr → M Globals (Addr × List Addr)) → (Addr → List Addr → M Globals ℕ) → Type 0 where
  pub_sub : IsMain pub_sub_start pub_sub_finish
  push_pull : IsMain push_pull_start push_pull_finish
  pairs : IsMain pairs_start pairs_finish

-- `main` of `pubsub.cpp`, `pushpull.cpp` and `pairs.cpp`, from its start with empty counters: it
-- comes to the start of the threads; and if each thread leaves the number of messages asked for
-- among the sent counters, and the main loop has processed `ms`, then `main` returns 0 exactly
-- when the pings of each thread in `ms` carry the numbers 1, 2, … up to the number of messages,
-- in this order. The conditions: every call of `main` succeeds, the numbers of threads and of
-- messages are not negative, and no ping names an address that is no control thread.
pub main-eq-zero :
    (begin : Addr → M Globals (Addr × List Addr)) (end : Addr → List Addr → M Globals ℕ)
    → IsMain begin end
    → (env env' : Env) (a : Addr) (n k : ℕ) (w w' : World Globals) (sent : Counters)
      (ms : List ControlMsg) (main_thread : Addr) (handles : List Addr)
    → Succeeds env
    → MakesContext env
    → Succeeds env'
    → w.vars.num_threads ≡ pos k
    → w.vars.num_msgs ≡ pos n
    → w.vars.failed ≡ false
    → w.vars.max_control_msg_received ≡ []
    → AllValues (λ _ v. v ≡ n) sent
    → ((t : Addr) → ((i : ℕ) → i < k → t ≢ thread_addr a i) → numbers t ms ≡ [])
    → w'.vars ≡ process_all (record ((begin a env w).1.vars) { max_control_msg_sent = sent }) ms
    → IsReturned (begin a env w).0
      × (((end main_thread handles env' w').0 ≡ done 0)
          ↔ ((i : ℕ) → i < k → numbers (thread_addr a i) ms ≡ count_from 0 n))
main-eq-zero begin end pub_sub = finish-eq-zero
main-eq-zero begin end push_pull = finish-eq-zero
main-eq-zero begin end pairs = finish-eq-zero

-- The same of `main` of `clientserver.cpp`, which makes its two control sockets before it starts
-- the threads and closes them before it reports: under the same conditions it comes to the start
-- of the threads, and it returns 0 exactly when the main loop has processed the pings 1, 2, … of
-- each thread, up to the number of messages and in this order.
pub client_server_finish-eq-zero :
    (env env' : Env) (a : Addr) (n k : ℕ) (w w' : World Globals) (sent : Counters)
    (ms : List ControlMsg) (control_sub control_pub main_thread : Addr) (handles : List Addr)
    → Succeeds env
    → MakesContext env
    → Succeeds env'
    → w.vars.num_threads ≡ pos k
    → w.vars.num_msgs ≡ pos n
    → w.vars.failed ≡ false
    → w.vars.max_control_msg_received ≡ []
    → AllValues (λ _ v. v ≡ n) sent
    → ((t : Addr) → ((i : ℕ) → i < k → t ≢ thread_addr a i) → numbers t ms ≡ [])
    → w'.vars
      ≡ process_all
          (record ((client_server_start a env w).1.vars) { max_control_msg_sent = sent })
          ms
    → IsReturned (client_server_start a env w).0
      × (((client_server_finish control_sub control_pub main_thread handles env' w').0 ≡ done 0)
          ↔ ((i : ℕ) → i < k → numbers (thread_addr a i) ms ≡ count_from 0 n))
client_server_finish-eq-zero env env' a n k w w' sent ms control_sub control_pub main_thread handles
      up new up' threads asked ok empty all only after =
    let begun = client_server_start-vars env a k w up new threads in
    let code =
      exit_of_left a n k (with_context env w) w'.vars sent ms asked ok empty all only
        (ground (arith, after, begun.0)) in
    (
      begun.1,
      rw (client_server_finish-code env' control_sub control_pub main_thread handles w' up') code,
    )
