-- ===== src/Threads/Sending/Sequence.antt =====
-- What `commandLoop` sends: the numbers of one thread, for every `sendCommand` that succeeds.
use zmqtests.Base.{
  ℕ, zero, suc, ◌+◌, ◌≡◌, refl, ap, ◌∙◌, Bool, true, false, List, [], ◌∷◌, ◌++◌, map, ◌≤◌, arith,
}
use mathlib.Core.List.{append_assoc}
use zmqtests.Base.Int.{ℤ, pos, negsuc, ltb_ℤ}
use zmqtests.Base.Table.{at, at-insert}
use zmqtests.Zmq.{Addr, ControlMsg, control, Call, zmq_send, Env, World, Outcome, done}
use zmqtests.Zmq.Monad.{M}
use zmqtests.Threads.Globals.{addr_key, Globals, ping_command}
use zmqtests.Threads.Detection.{count_from}
use zmqtests.Threads.Sending.{next_msg_num, count_sent, command_round, command_loop}

-- The control messages among the calls, in the order of sending.
abbrev pub add_sent : Call → List ControlMsg → List ControlMsg
add_sent (zmq_send s (control m) f) ms = ms ++ m ∷ []
add_sent c ms = ms

unfoldable pub sent : List Call → List ControlMsg
sent [] = []
sent (c ∷ cs) = add_sent c (sent cs)

abbrev pub ping : Addr → ℕ → ControlMsg
ping t k = record { command = ping_command; void_arg = t; long_arg = k }

-- A call of `sendCommand` that succeeds: one message more is sent, and no global variable but the
-- thread's own slot has changed.
pub record Sends (m : ControlMsg) (w : World Globals) (o : Outcome (Unit {0})) (w' : World Globals)
    : Type 0 where
  pub returns : o ≡ done tt
  pub one_more : sent w'.calls ≡ sent w.calls ++ m ∷ []
  pub kept : w'.vars ≡ record (w.vars) { specific = w'.vars.specific }

abbrev pub IsSender : (ControlMsg → M Globals (Unit {0})) → Env → Type 0
IsSender send_command env =
    (m : ControlMsg) (w : World Globals)
    → Sends m w (send_command m env w).0 (send_command m env w).1

-- What is left behind when the loop of thread `t` ends.
pub record Ends (t : Addr) (from : World Globals) (ks : List ℕ) (last : ℕ) (o : Outcome Bool)
    (w : World Globals) : Type 0 where
  pub ended : o ≡ done true
  pub pings : sent w.calls ≡ sent from.calls ++ map (ping t) ks
  pub counter : at 0 t w.vars.max_control_msg_sent ≡ last

-- How many pings a thread sends: one is sent before the number of messages is looked at.
unfoldable pub quota : ℤ → ℕ
quota (pos zero) = 1
quota (pos (suc n)) = suc n
quota (negsuc n) = 1

module _ (send_command : ControlMsg → M Globals (Unit {0})) (env : Env)
    (sender : IsSender send_command env) where
  pub command_round-sends :
      (t : Addr) (w : World Globals)
      → ((command_round send_command t env w).0
          ≡ done (ltb_ℤ (pos (next_msg_num w.vars t)) w.vars.num_msgs))
        × (sent (command_round send_command t env w).1.calls
            ≡ sent w.calls ++ ping t (next_msg_num w.vars t) ∷ [])
        × ((command_round send_command t env w).1.vars ≡ record (count_sent w.vars t) {
          specific = (command_round send_command t env w).1.vars.specific;
        })
  unfolding command_round sent
  command_round-sends t w =
      let s = sender (ping t (next_msg_num w.vars t)) (record w { vars = count_sent w.vars t }) in
      (ground arith, ground arith, ground arith)

  command_loop-more :
      (fuel : ℕ) (t : Addr) (w : World Globals)
      → w.vars.keep_going ≡ true
      → (command_round send_command t env w).0 ≡ done true
      → command_loop send_command (suc fuel) t env w
        ≡ command_loop send_command fuel t env (command_round send_command t env w).1
  unfolding command_loop
  command_loop-more fuel t w go more = ground arith

  command_loop-stop :
      (fuel : ℕ) (t : Addr) (w : World Globals)
      → w.vars.keep_going ≡ true
      → (command_round send_command t env w).0 ≡ done false
      → command_loop send_command (suc fuel) t env w
        ≡ (done true, (command_round send_command t env w).1)
  unfolding command_loop
  command_loop-stop fuel t w go more = ground arith

  -- The counter of the thread after a round, and what the loop reads of the globals.
  after_round :
      (t : Addr) (w : World Globals)
      → (at 0 t (command_round send_command t env w).1.vars.max_control_msg_sent
          ≡ next_msg_num w.vars t)
        × ((command_round send_command t env w).1.vars.keep_going ≡ w.vars.keep_going)
        × ((command_round send_command t env w).1.vars.num_msgs ≡ w.vars.num_msgs)
  unfolding count_sent
  after_round t w =
      let kept = (command_round-sends t w).2 in
      (
        rw kept (
            rw (at-insert 0 t t (next_msg_num w.vars t) w.vars.max_control_msg_sent)
              (ground arith)),
        ground (arith, kept),
        ground (arith, kept),
      )

  command_loop-last :
      (fuel : ℕ) (t : Addr) (w : World Globals)
      → w.vars.keep_going ≡ true
      → ltb_ℤ (pos (next_msg_num w.vars t)) w.vars.num_msgs ≡ false
      → Ends t w
          (next_msg_num w.vars t ∷ [])
          (next_msg_num w.vars t)
          (command_loop send_command (suc fuel) t env w).0
          (command_loop send_command (suc fuel) t env w).1
  command_loop-last fuel t w go last =
      let round = command_round-sends t w in
      let stop = command_loop-stop fuel t w go (ground (arith, round.0)) in
      rw stop (record { ended = refl; pings = round.1; counter = (after_round t w).0 })

  command_loop-from :
      (d fuel k n : ℕ) (t : Addr) (w : World Globals)
      → d ≤ fuel
      → w.vars.keep_going ≡ true
      → w.vars.num_msgs ≡ pos n
      → at 0 t w.vars.max_control_msg_sent ≡ k
      → n ≡ k + suc d
      → Ends t w
          (count_from k (suc d))
          n
          (command_loop send_command (suc fuel) t env w).0
          (command_loop send_command (suc fuel) t env w).1
  unfolding next_msg_num count_from
  command_loop-from zero fuel k n t w enough go num at_k e =
      let last = command_loop-last fuel t w go (ground arith) in
      record {
        ended = last.ended;
        pings = ground (arith, last.pings);
        counter = ground (arith, last.counter);
      }
  command_loop-from (suc d) zero k n t w enough go num at_k e = absurd (omega arith)
  command_loop-from (suc d) (suc fuel) k n t w enough go num at_k e =
      let w' = (command_round send_command t env w).1 in
      let round = command_round-sends t w in
      let (count, going, number) = after_round t w in
      let more = command_loop-more (suc fuel) t w go (ground (arith, round.0)) in
      let rest =
        command_loop-from d fuel (suc k) n t w' (omega arith) (going ∙ go) (number ∙ num)
          (count ∙ ap suc at_k) (omega arith) in
      rw more (record {
        ended = rest.ended;
        pings = ground (
          arith,
          rest.pings,
          round.1,
          append_assoc (sent w.calls) (ping t (suc k) ∷ [])
              (map (ping t) (count_from (suc k) (suc d))),
        );
        counter = rest.counter;
      })

  quota-sends :
      (fuel : ℕ) (z : ℤ) (t : Addr) (w : World Globals)
      → quota z ≤ suc fuel
      → w.vars.keep_going ≡ true
      → w.vars.num_msgs ≡ z
      → at 0 t w.vars.max_control_msg_sent ≡ 0
      → Ends t w
          (count_from 0 (quota z))
          (quota z)
          (command_loop send_command (suc fuel) t env w).0
          (command_loop send_command (suc fuel) t env w).1
  unfolding quota next_msg_num count_from
  quota-sends fuel (pos zero) t w enough go num at_0 =
      let last = command_loop-last fuel t w go (ground arith) in
      record {
        ended = last.ended;
        pings = ground (arith, last.pings);
        counter = ground (arith, last.counter);
      }
  quota-sends fuel (pos (suc n)) t w enough go num at_0 =
      command_loop-from n fuel 0 (suc n) t w (omega arith) go num at_0 (omega arith)
  quota-sends fuel (negsuc n) t w enough go num at_0 =
      let last = command_loop-last fuel t w go (ground arith) in
      record {
        ended = last.ended;
        pings = ground (arith, last.pings);
        counter = ground (arith, last.counter);
      }

-- A command loop that starts with counter 0 while `keepGoing` is set ends, for every number of
-- messages and fuel of at least as many rounds. It has then sent the pings 1, 2, … of its thread,
-- in this order, as many as there are messages, but one ping also where that number is 0 or
-- negative; and its counter is the number of these pings. The condition is a `sendCommand` that
-- succeeds and sends the message it is given.
pub command_loop-sends :
    (send_command : ControlMsg → M Globals (Unit {0})) (env : Env)
    → IsSender send_command env
    → (fuel : ℕ) (t : Addr) (w : World Globals) → quota w.vars.num_msgs ≤ suc fuel
    → w.vars.keep_going ≡ true
    → at 0 t w.vars.max_control_msg_sent ≡ 0
    → Ends t w
        (count_from 0 (quota w.vars.num_msgs))
        (quota w.vars.num_msgs)
        (command_loop send_command (suc fuel) t env w).0
        (command_loop send_command (suc fuel) t env w).1
command_loop-sends send_command env sender fuel t w enough go at_0 =
    quota-sends send_command env sender fuel w.vars.num_msgs t w enough go refl at_0
