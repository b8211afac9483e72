-- ===== src/Threads/Schedule/Rounds.antt =====
-- The rounds of the code are the steps of the schedule (`commandLoop` of `threads/common.h` and
-- `mainLoop` of the four programs).
use zmqtests.Base.{Bool-cases, not, ◌&&◌, ◌≡◌, ◌≢◌, inl, inr, true, List, [], ◌∷◌, ◌++◌, arith}
use zmqtests.Base.Int.{pos, ltb_ℤ, eqb_ℤ}
use zmqtests.Zmq.{ready_0, zmq_poll, zmq_msg_recv, Addr, ControlMsg, Env, World, done}
use zmqtests.Zmq.Monad.{M}
use zmqtests.Threads.Globals.{Globals}
use zmqtests.Threads.Sending.{next_msg_num, command_round}
use zmqtests.Threads.Sending.Sequence.{sent, ping, IsSender, command_round-sends}
use zmqtests.Threads.Serving.{minus_one, serve_round}
use zmqtests.Threads.Serving.Received.{accepted}
use zmqtests.Threads.Schedule.{Config, after_send, after_receive}

-- What a round of the main loop does: it receives nothing, or one message.
pub data Receives (env : Env) (s : Addr) (c : Config) (from to : World Globals) : Type 0 where
  nothing :
      accepted env s to.calls ≡ accepted env s from.calls
      → to.vars ≡ c.globals
      → Receives env s c from to
  message :
      (m : ControlMsg)
      → accepted env s to.calls ≡ accepted env s from.calls ++ m ∷ []
      → ((before after : List ControlMsg) → to.vars ≡ (after_receive before m after c).globals)
      → Receives env s c from to

-- A round of `commandLoop` of a thread at work is the step `send` of the schedule: it changes the
-- globals as the step does, but for the slot of the thread; it sends the ping that the step puts
-- behind the queue; and the loop goes on exactly when the thread is at work behind the step. The
-- condition is a `sendCommand` that succeeds and sends the message it is given.
pub command_round-after_send :
    (send_command : ControlMsg → M Globals (Unit {0})) (env : Env)
    → IsSender send_command env
    → (t : Addr) (w : World Globals) (c : Config) → w.vars ≡ c.globals
    → c.working t ≡ true
    → ((command_round send_command t env w).0 ≡ done ((after_send t c).working t))
      × ((command_round send_command t env w).1.vars ≡ record ((after_send t c).globals) {
        specific = (command_round send_command t env w).1.vars.specific;
      })
      × (sent (command_round send_command t env w).1.calls
          ≡ sent w.calls ++ ping t (next_msg_num c.globals t) ∷ [])
command_round-after_send send_command env sender t w c same works =
    let run = command_round-sends send_command env sender t w in
    (ground (arith, run, same, works), ground (arith, run, same), ground (arith, run, same))

-- A round of the receiving loop either accepts no control message and leaves the globals as they
-- are, or accepts one and leaves the globals that the step `receive` of the schedule has with this
-- message, whatever the calls reply. The condition is that the data socket is not the control socket.
pub serve_round-after_receive :
    (env : Env) (s d : Addr)
    → d ≢ s
    → (w : World Globals) (c : Config) → w.vars ≡ c.globals
    → Receives env s c w (serve_round s d env w).1
unfolding serve_round accepted
serve_round-after_receive env s d apart w c same =
    let p = env w.calls (zmq_poll (s ∷ d ∷ []) minus_one) in
    let r = env (zmq_poll (s ∷ d ∷ []) minus_one ∷ w.calls) (zmq_msg_recv s) in
    elim (Bool-cases (not (ltb_ℤ p.rc (pos 0)) && ready_0 p.ready && not (eqb_ℤ r.rc minus_one))) [
      | inl got ↦
          message r.control_msg (ground (arith, got)) (λ before after. ground (arith, got, same))
      | inr none ↦ nothing (ground (arith, none)) (ground (arith, none, same))
    ]
