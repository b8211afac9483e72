-- ===== src/Threads/Serving.antt =====
-- The receiving loop, which `mainLoop` of `pushpull.cpp` has, and the other programs word for
-- word: poll the control and the data socket, and process what has arrived.
pub mod Received
use zmqtests.Base.{ℕ, zero, suc, Bool, true, false, not, List, [], ◌∷◌, ◌++◌, ◌==◌, if◌then◌else◌}
use zmqtests.Base.Int.{ℤ, pos, negsuc, ltb_ℤ, eqb_ℤ}
use zmqtests.Zmq.{ready_0, ready_1, Addr, ControlMsg, Reply, World, done, zmq_poll, zmq_msg_recv}
use zmqtests.Zmq.Monad.{M, ◌>>=◌, ◌>>◌, ret, skip, vars, set_vars, call, when}
use zmqtests.Threads.Globals.{Globals}
use zmqtests.Threads.Control.{process_control_msg, process_data_msg, control_diag}

abbrev pub minus_one : ℤ
minus_one = negsuc 0

-- A control message changes the globals and may print lines.
unfoldable pub handle_control : ControlMsg → M Globals (Unit {0})
handle_control m env w = (
  done tt,
  record w { vars = process_control_msg w.vars m; log = control_diag w.vars m ++ w.log },
)

unfoldable pub serve_ready : Addr → Addr → List Bool → M Globals Bool
unfolding handle_control process_data_msg
serve_ready control_sub data_sub ready =
    if ready_0 ready
    then (do
      r ← call (zmq_msg_recv control_sub)
      when (not (eqb_ℤ r.rc minus_one)) (handle_control r.control_msg)
      ret true)
    else if ready_1 ready
    then (do
      r ← call (zmq_msg_recv data_sub)
      g ← vars
      when (not (eqb_ℤ r.rc minus_one)) (set_vars (process_data_msg g))
      ret true)
    else ret true

-- One round: `false` when the poll fails, which ends the loop.
unfoldable pub serve_round : Addr → Addr → M Globals Bool
unfolding serve_ready
serve_round control_sub data_sub = do
  p ← call (zmq_poll (control_sub ∷ data_sub ∷ []) minus_one)
  (if ltb_ℤ p.rc (pos 0) then ret false else serve_ready control_sub data_sub p.ready)

-- The loop with fuel: `true` when it has ended.
unfoldable pub serve_loop : ℕ → Addr → Addr → M Globals Bool
serve_loop zero control_sub data_sub = ret false
serve_loop (suc fuel) control_sub data_sub =
    let rest = serve_loop fuel control_sub data_sub in
    do
      g ← vars
      (if g.keep_going
          then (do more ← serve_round control_sub data_sub; (if more then rest else ret true))
          else ret true)
