-- ===== src/Threads/ClientServer.antt =====
-- `threads/clientserver.cpp`: all threads send through one CLIENT socket, made by `main`.
use zmqtests.Base.{Bool, true, false, if◌then◌else◌, ℕ}
use zmqtests.Base.Int.{pos, eqb_ℤ}
use zmqtests.Zmq.{Addr, ControlMsg, control, no_flag, zmq_send, zmq_bind, zmq_sub}
use zmqtests.Zmq.Monad.{M, ◌>>=◌, ◌>>◌, ret, vars, call, assert, check_int}
use zmqtests.Threads.Globals.{Globals, data_endpoint, control_msg_size}
use zmqtests.Threads.Sockets.{create_socket, close_socket}
use zmqtests.Threads.Serving.{serve_loop}

module _ (control_pub control_sub : Addr) where
  unfoldable pub send_command : ControlMsg → M Globals (Unit {0})
  unfolding check_int
  send_command msg = do
    i ← call (zmq_send control_pub (control msg) no_flag)
    check_int i.rc
    assert (eqb_ℤ i.rc (pos control_msg_size))

  -- `mainLoop` with fuel for its loop: `false` when the fuel has run out in the loop.
  unfoldable pub main_loop : ℕ → M Globals Bool
  unfolding create_socket close_socket check_int
  main_loop fuel = do
    g ← vars
    data_sub ← create_socket g.the_context zmq_sub
    q ← call (zmq_bind data_sub data_endpoint)
    check_int q.rc
    ended ← serve_loop fuel control_sub data_sub
    (if ended then (do close_socket data_sub; ret true) else ret false)
