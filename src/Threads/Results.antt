-- ===== src/Threads/Results.antt =====
-- The end of a run, in `threads/common.h`: `checkResults`, `printResults`, `onSignal`, and the
-- exit code of the four `main` functions.
use zmqtests.Base.{ℕ, Bool, false, ◌||◌, not, List, [], ◌∷◌, ◌==◌, if◌then◌else◌}
use zmqtests.Base.Int.{ℤ, pos, eqb_ℤ}
use zmqtests.Base.Table.{at, touch}
use zmqtests.Zmq.{Diag, sent_received}
use zmqtests.Threads.Globals.{addr_key, Globals, Counters}

-- One loop of `checkResults`: whether an entry differs from the number of messages.
unfoldable pub any_differs : ℤ → Counters → Bool
any_differs n [] = false
any_differs n ((t, k) ∷ m) = not (eqb_ℤ (pos k) n) || any_differs n m

unfoldable pub check_results : Globals → Globals
unfolding any_differs
check_results g = record g {
  failed =
      g.failed
      || any_differs g.num_msgs g.max_control_msg_sent
      || any_differs g.num_msgs g.max_control_msg_received;
}

-- The loop of `printResults` over the entries of `maxControlMsgSent`, with the received counters,
-- which `operator[]` may extend.
unfoldable pub print_loop : Bool → Counters → Counters → Counters × List Diag
print_loop quiet received [] = (received, [])
print_loop quiet received ((t, k) ∷ m) =
    let r = at 0 t received in
    let (received', rest) = print_loop quiet (touch 0 t received) m in
    (received', if not quiet || not (r == k) then sent_received t k r ∷ rest else rest)

unfoldable pub print_results : Globals → Globals × List Diag
unfolding print_loop
print_results g =
    let (received, lines) =
      print_loop g.quiet_flag g.max_control_msg_received g.max_control_msg_sent in
    (record g { max_control_msg_received = received }, lines)

-- `onSignal` prints all results, and exits with 1.
unfoldable pub on_signal : Globals → ℕ × List Diag
unfolding print_results
on_signal g = (1, (print_results (record g { quiet_flag = false })).1)

-- The last lines of `main`, after the context is destroyed.
unfoldable pub exit_code : Globals → ℕ
unfolding check_results print_results
exit_code g = if ((print_results (check_results g)).0).failed then 1 else 0
