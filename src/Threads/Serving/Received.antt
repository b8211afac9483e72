-- ===== src/Threads/Serving/Received.antt =====
-- What the receiving loop has processed, in terms of the replies to its calls.
use zmqtests.Base.{
  ℕ, zero, suc, ◌≡◌, ◌≢◌, refl, Bool, true, false, not, ◌&&◌, List, [], ◌∷◌, ◌++◌, ◌==◌,
  if◌then◌else◌, arith,
}
use zmqtests.Base.Int.{eqb_ℤ}
use zmqtests.Zmq.{
  Addr, ControlMsg, Call, zmq_msg_recv, Env, World, Outcome, done, aborted, zmq_poll,
}
use zmqtests.Threads.Globals.{addr_key, Globals, exit_command}
use zmqtests.Threads.Control.{process_control_msg}
use zmqtests.Threads.Detection.{process_all}
use zmqtests.Threads.Serving.{minus_one, serve_round, serve_loop}

-- The control messages that were received without an error, in the order of arrival.
abbrev pub add_accepted : Env → Addr → Call → List Call → List ControlMsg → List ControlMsg
add_accepted env c (zmq_msg_recv s) cs ms =
    if s == c && not (eqb_ℤ (env cs (zmq_msg_recv s)).rc minus_one)
    then ms ++ (env cs (zmq_msg_recv s)).control_msg ∷ []
    else ms
add_accepted env c k cs ms = ms

unfoldable pub accepted : Env → Addr → List Call → List ControlMsg
accepted env c [] = []
accepted env c (k ∷ cs) = add_accepted env c k cs (accepted env c cs)

unfoldable pub has_exit : List ControlMsg → Bool
has_exit [] = false
has_exit (m ∷ ms) = if m.command == exit_command then true else has_exit ms

-- The messages up to the first exit command.
unfoldable pub up_to_exit : List ControlMsg → List ControlMsg
up_to_exit [] = []
up_to_exit (m ∷ ms) = if m.command == exit_command then m ∷ [] else m ∷ up_to_exit ms

process_all-append :
    (g : Globals) (ms : List ControlMsg) (m : ControlMsg)
    → process_all g (ms ++ m ∷ []) ≡ process_control_msg (process_all g ms) m
unfolding process_all
process_all-append g [] m = refl
process_all-append g (x ∷ ms) m = process_all-append (process_control_msg g x) ms m

has_exit-append :
    (ms : List ControlMsg) (m : ControlMsg)
    → has_exit ms ≡ false
    → has_exit (ms ++ m ∷ []) ≡ (m.command == exit_command)
unfolding has_exit
has_exit-append [] m h = ground arith
has_exit-append (x ∷ ms) m h = ground (arith, has_exit-append ms m)

up_to_exit-append :
    (ms : List ControlMsg) (m : ControlMsg)
    → has_exit ms ≡ false
    → up_to_exit (ms ++ m ∷ []) ≡ ms ++ m ∷ []
unfolding has_exit up_to_exit
up_to_exit-append [] m h = ground arith
up_to_exit-append (x ∷ ms) m h = ground (arith, up_to_exit-append ms m)

-- The globals are those of `g` after the accepted messages, no message came after an exit
-- command, and `keepGoing` is set as long as there was none.
pub record IsServed (env : Env) (c : Addr) (g : Globals) (w : World Globals) : Type 0 where
  pub globals : w.vars ≡ process_all g (accepted env c w.calls)
  pub none_after_exit : up_to_exit (accepted env c w.calls) ≡ accepted env c w.calls
  pub going : w.vars.keep_going ≡ not (has_exit (accepted env c w.calls))

-- No `assert` has failed.
abbrev pub IsDone : Outcome Bool → Type 0
IsDone (done b) = Unit {0}
IsDone aborted = ⊥

process_control_msg-going :
    (g : Globals) (m : ControlMsg)
    → (process_control_msg g m).keep_going
      ≡ (if m.command == exit_command then false else g.keep_going)
unfolding process_control_msg
process_control_msg-going g m = ground arith

module _ (env : Env) (c d : Addr) (apart : d ≢ c) (g : Globals) where
  serve_round-IsServed :
      (w : World Globals)
      → w.vars.keep_going ≡ true
      → IsServed env c g w
      → IsServed env c g (serve_round c d env w).1
  unfolding serve_round accepted
  serve_round-IsServed w go s =
      let m = (env (zmq_poll (c ∷ d ∷ []) minus_one ∷ w.calls) (zmq_msg_recv c)).control_msg in
      let ms = accepted env c w.calls in
      let none_yet : has_exit ms ≡ false = ground (arith, s.going) in
      ground (
        arith,
        s.globals,
        s.none_after_exit,
        s.going,
        process_all-append g ms m,
        has_exit-append ms m none_yet,
        up_to_exit-append ms m none_yet,
        process_control_msg-going w.vars m,
      )

  serve_round-IsDone : (w : World Globals) → IsDone (serve_round c d env w).0
  unfolding serve_round
  serve_round-IsDone w = ground arith

  serve_loop-IsServed :
      (fuel : ℕ) (w : World Globals)
      → IsServed env c g w
      → IsServed env c g (serve_loop fuel c d env w).1 × IsDone (serve_loop fuel c d env w).0
  unfolding serve_loop
  serve_loop-IsServed zero w s = (s, tt)
  serve_loop-IsServed (suc fuel) w s =
      let w' = (serve_round c d env w).1 in
      ground (arith, serve_round-IsServed w, serve_round-IsDone w, serve_loop-IsServed fuel w')

-- A receiving loop that starts with `keepGoing` set, before any control message was received,
-- never aborts, whatever the calls reply. The globals are then the result of processing, in the
-- order of arrival, the control messages received without an error; the loop takes none after an
-- exit command, and clears `keepGoing` exactly when it has taken one. The condition is that the
-- data socket is not the control socket.
pub serve_loop-serves :
    (env : Env) (c d : Addr)
    → d ≢ c
    → (fuel : ℕ) (w : World Globals) → accepted env c w.calls ≡ []
    → w.vars.keep_going ≡ true
    → IsServed env c w.vars (serve_loop fuel c d env w).1 × IsDone (serve_loop fuel c d env w).0
unfolding process_all has_exit up_to_exit
serve_loop-serves env c d apart fuel w fresh go =
    serve_loop-IsServed env c d apart w.vars fuel w
      (record { globals = rw fresh; none_after_exit = rw fresh; going = rw fresh go })
