-- ===== src/Threads/Control.antt =====
-- The receiving side of `threads/common.h`: `processControlMsg` and `processDataMsg`.
use zmqtests.Base.{suc, false, ◌||◌, not, List, [], ◌∷◌, ◌==◌, ltb, if◌then◌else◌}
use zmqtests.Base.Table.{at, touch, insert}
use zmqtests.Zmq.{ControlMsg, Diag, wrong_number, unknown_control}
use zmqtests.Threads.Globals.{addr_key, Globals, ping_command, exit_command}

-- A ping: compared with the last number of its thread, whose entry `operator[]` makes.
unfoldable pub process_ping : Globals → ControlMsg → Globals
process_ping g m =
    let max_msg_num = at 0 m.void_arg g.max_control_msg_received in
    let received = touch 0 m.void_arg g.max_control_msg_received in
    record g {
      failed = g.failed || not (m.long_arg == suc max_msg_num);
      max_control_msg_received =
          if ltb max_msg_num m.long_arg then insert m.void_arg m.long_arg received else received;
    }

unfoldable pub process_control_msg : Globals → ControlMsg → Globals
unfolding process_ping
process_control_msg g m =
    if m.command == exit_command
    then record g { keep_going = false }
    else if m.command == ping_command
    then process_ping g m
    else g

-- The line that `processControlMsg` prints whatever the switches say.
unfoldable pub control_diag : Globals → ControlMsg → List Diag
control_diag g m =
    let max_msg_num = at 0 m.void_arg g.max_control_msg_received in
    if m.command == exit_command
    then []
    else if m.command == ping_command
    then (if m.long_arg == suc max_msg_num
        then []
        else wrong_number m.void_arg m.long_arg (suc max_msg_num) ∷ [])
    else unknown_control m.command ∷ []

-- `processDataMsg` has an empty body.
unfoldable pub process_data_msg : Globals → Globals
process_data_msg g = g
