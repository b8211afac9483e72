-- ===== src/Threads/Delivery.antt =====
-- `sendCommand` of the four programs sends the message that it is given, while the calls succeed.
pub mod Whole
use zmqtests.Base.{◌≡◌, ◌≢◌, false, List, arith}
use zmqtests.Base.Int.{pos, ltb_ℤ}
use zmqtests.Zmq.{Addr, ControlMsg, control, SendFlag, SocketType, Call, zmq_send, zmq_socket, Env}
use zmqtests.Threads.Globals.{control_msg_size}
use zmqtests.Threads.Sending.Sequence.{sent, IsSender}
use zmqtests.Threads.PubSub
use zmqtests.Threads.PushPull
use zmqtests.Threads.Pairs
use zmqtests.Threads.ClientServer

-- Every call succeeds: none returns a negative code, a new socket is not null, and a control
-- message is taken whole.
pub record Succeeds (env : Env) : Type 0 where
  pub nonneg : (cs : List Call) (c : Call) → ltb_ℤ (env cs c).rc (pos 0) ≡ false
  pub made : (cs : List Call) (ctx : Addr) (ty : SocketType) → (env cs (zmq_socket ctx ty)).ptr ≢ 0
  pub whole :
      (cs : List Call) (s : Addr) (m : ControlMsg) (f : SendFlag)
      → (env cs (zmq_send s (control m) f)).rc ≡ pos control_msg_size

module _ (env : Env) (up : Succeeds env) where
  client_server-Sends : (p q : Addr) → IsSender (ClientServer.send_command p q) env
  unfolding ClientServer.send_command sent
  client_server-Sends p q m w = record {
    returns = grind (arith, up.whole, up.nonneg);
    one_more = grind (arith, up.whole, up.nonneg);
    kept = grind (arith, up.whole, up.nonneg);
  }

  pub_sub-Sends : IsSender PubSub.send_command env
  unfolding PubSub.send_command sent
  pub_sub-Sends m w = record {
    returns = grind (arith, up.whole, up.nonneg, up.made);
    one_more = grind (arith, up.whole, up.nonneg, up.made);
    kept = grind (arith, up.whole, up.nonneg, up.made);
  }

  push_pull-Sends : IsSender PushPull.send_command env
  unfolding PushPull.send_command sent
  push_pull-Sends m w = record {
    returns = grind (arith, up.whole, up.nonneg, up.made);
    one_more = grind (arith, up.whole, up.nonneg, up.made);
    kept = grind (arith, up.whole, up.nonneg, up.made);
  }

  pairs-Sends : IsSender Pairs.send_command env
  unfolding Pairs.send_command sent
  pairs-Sends m w = record {
    returns = grind (arith, up.whole, up.nonneg, up.made);
    one_more = grind (arith, up.whole, up.nonneg, up.made);
    kept = grind (arith, up.whole, up.nonneg, up.made);
  }

-- While every call succeeds, `sendCommand` of each program returns, has sent its message once and
-- last, and changes no global variable but the slot of the thread.
pub send_command-Sends :
    (env : Env)
    → Succeeds env
    → IsSender PubSub.send_command env
      × IsSender PushPull.send_command env
      × IsSender Pairs.send_command env
      × ((control_pub control_sub : Addr)
          → IsSender (ClientServer.send_command control_pub control_sub) env)
send_command-Sends env up =
    (pub_sub-Sends env up, push_pull-Sends env up, pairs-Sends env up, client_server-Sends env up)
