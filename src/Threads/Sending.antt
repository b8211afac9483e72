-- ===== src/Threads/Sending.antt =====
-- The sending side of `threads/common.h`: `sendControlMsg`, `commandLoop` and `shutdownFunc`.
-- `sendCommand` is declared there and defined by each program, so it is a parameter here.
pub mod Sequence
use zmqtests.Base.{ℕ, zero, suc, Bool, true, false, if◌then◌else◌}
use zmqtests.Base.Int.{pos, ltb_ℤ}
use zmqtests.Base.Table.{at, insert}
use zmqtests.Zmq.{Addr, ControlMsg, usleep}
use zmqtests.Zmq.Monad.{M, ◌>>=◌, ◌>>◌, ret, vars, set_vars, run_call}
use zmqtests.Threads.Globals.{addr_key, Globals, Counters, ping_command, exit_command}

-- `maxControlMsgSent[threadAddr]++`, with the number that is sent.
unfoldable pub next_msg_num : Globals → Addr → ℕ
next_msg_num g thread_addr = suc (at 0 thread_addr g.max_control_msg_sent)

unfoldable pub count_sent : Globals → Addr → Globals
unfolding next_msg_num
count_sent g thread_addr = record g {
  max_control_msg_sent = insert thread_addr (next_msg_num g thread_addr) g.max_control_msg_sent;
}

module _ (send_command : ControlMsg → M Globals (Unit {0})) where
  unfoldable pub send_control_msg : ℕ → Addr → ℕ → M Globals (Unit {0})
  send_control_msg command void_arg long_arg =
      send_command (record { command = command; void_arg = void_arg; long_arg = long_arg })

  -- One round of the loop, and whether the loop goes on.
  unfoldable pub command_round : Addr → M Globals Bool
  unfolding send_control_msg count_sent
  command_round thread_addr = do
    g ← vars
    set_vars (count_sent g thread_addr)
    send_control_msg ping_command thread_addr (next_msg_num g thread_addr)
    g' ← vars
    run_call (usleep g'.msg_sleep)
    ret (ltb_ℤ (pos (next_msg_num g thread_addr)) g'.num_msgs)

  -- `commandLoop` with fuel: `true` when the loop has ended.
  unfoldable pub command_loop : ℕ → Addr → M Globals Bool
  command_loop zero thread_addr = ret false
  command_loop (suc fuel) thread_addr =
      let rest = command_loop fuel thread_addr in
      do
        g ← vars
        (if g.keep_going
            then (do more ← command_round thread_addr; (if more then rest else ret true))
            else ret true)

  unfoldable pub shutdown_func : M Globals (Unit {0})
  unfolding send_control_msg
  shutdown_func = send_control_msg exit_command 0 0
