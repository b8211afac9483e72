-- ===== src/Tests.antt =====
-- Runs of the programs on concrete inputs.
mod Threads
mod Peer
mod Network
mod Monitor
mod PingPong
mod Schedule
mod Params
mod Programs
mod Common
use zmqtests.Base.{false, []}
use zmqtests.Base.Int.{pos}
use zmqtests.Zmq.{ControlMsg, ConnectMsg, RequestMsg, Reply}

-- A call that succeeds and writes nothing.
abbrev pub no_reply : Reply
no_reply = record {
  rc = pos 0;
  ptr = 0;
  ready = [];
  text = [];
  more = false;
  control_msg = record { command = 0; void_arg = 0; long_arg = 0 };
  connect_msg = record { command = 0; uuid = []; endpoint = [] };
  request_msg = record { topic = []; type_name = [] };
}
