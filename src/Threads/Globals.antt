-- ===== src/Threads/Globals.antt =====
-- The global variables of `threads/common.h` and the commands. `specific` is the slot of the
-- pthread key of the running thread, which the programs with one socket for each thread keep.
use zmqtests.Base.{ℕ, List, [], Bool, true, false, ==_iff, ◌==◌}
use zmqtests.Base.Int.{ℤ, pos}
use zmqtests.Base.Table.{Key}
use zmqtests.Base.Text.{Bytes, bytes}
use zmqtests.Zmq.{Addr}

instance abbrev pub addr_key : Key Addr
addr_key = record { same = ◌==◌; same_iff = ==_iff }

-- `std::map<void*, long>`. The counters start at 0 and only grow, so they are natural numbers.
abbrev pub Counters : Type 0
Counters = List (Addr × ℕ)

pub record Globals : Type 0 where
  pub the_context : Addr
  pub keep_going : Bool
  pub debug_flag : Bool
  pub quiet_flag : Bool
  pub poll_flag : Bool
  pub sleep_duration : ℤ
  pub num_msgs : ℤ
  pub num_threads : ℤ
  pub failed : Bool
  pub dont_wait_flag : Bool
  pub linger : ℤ
  pub msg_sleep : ℤ
  pub mutex_flag : Bool
  pub max_control_msg_sent : Counters
  pub max_control_msg_received : Counters
  pub specific : Addr

-- The values that the globals are defined with.
abbrev pub initial : Globals
initial = record {
  the_context = 0;
  keep_going = true;
  debug_flag = false;
  quiet_flag = false;
  poll_flag = false;
  sleep_duration = pos 1;
  num_msgs = pos 1000;
  num_threads = pos 10;
  failed = false;
  dont_wait_flag = false;
  linger = pos 30000;
  msg_sleep = pos 0;
  mutex_flag = false;
  max_control_msg_sent = [];
  max_control_msg_received = [];
  specific = 0;
}

abbrev pub ping_command : ℕ
ping_command = b'P'

abbrev pub exit_command : ℕ
exit_command = b'X'

abbrev pub control_endpoint : Bytes
control_endpoint = bytes "inproc://control"

abbrev pub data_endpoint : Bytes
data_endpoint = bytes "tcp://127.0.0.1:5101"

-- `sizeof(zmqControlMsg)` with pointers and longs of 8 bytes.
abbrev pub control_msg_size : ℕ
control_msg_size = 24
