-- ===== src/Threads/PubSub.antt =====
-- `threads/pubsub.cpp`: every thread sends through a PUB socket of its own, which the first
-- command makes and keeps in the slot of the pthread key.
use zmqtests.Base.{Bool, true, false, [], ◌∷◌, ◌==◌, if◌then◌else◌, ℕ}
use zmqtests.Base.Int.{pos, eqb_ℤ}
use zmqtests.Zmq.{
  Addr, ControlMsg, control, no_flag, zmq_connect, zmq_poll, zmq_send, zmq_bind, zmq_setsockopt,
  zmq_subscribe, text_value, pthread_setspecific, zmq_pub, zmq_sub, zmq_sub,
}
use zmqtests.Zmq.Monad.{M, ◌>>=◌, ◌>>◌, ret, vars, set_vars, call, when, assert, check_int}
use zmqtests.Threads.Globals.{Globals, control_endpoint, data_endpoint, control_msg_size}
use zmqtests.Threads.Sockets.{create_socket, close_socket}
use zmqtests.Threads.Serving.{serve_loop}

-- With the poll switch a socket is polled for a millisecond.
unfoldable pub poll_once : Addr → M Globals (Unit {0})
unfolding check_int
poll_once sock = do r ← call (zmq_poll (sock ∷ []) (pos 1)); check_int r.rc

-- The branch of `sendCommand` for a thread with no socket. `pthread_setspecific` that returns an
-- error leaves the slot as it was.
unfoldable pub make_socket : M Globals Addr
unfolding create_socket check_int poll_once
make_socket = do
  g ← vars
  control_pub ← create_socket g.the_context zmq_pub
  r ← call (zmq_connect control_pub control_endpoint)
  check_int r.rc
  when g.poll_flag (poll_once control_pub)
  s ← call (pthread_setspecific control_pub)
  set_vars (if eqb_ℤ s.rc (pos 0) then record g { specific = control_pub } else g)
  check_int s.rc
  ret control_pub

unfoldable pub send_command : ControlMsg → M Globals (Unit {0})
unfolding make_socket check_int poll_once
send_command msg = do
  g ← vars
  control_pub ← (if g.specific == 0 then make_socket else ret g.specific)
  i ← call (zmq_send control_pub (control msg) no_flag)
  check_int i.rc
  assert (eqb_ℤ i.rc (pos control_msg_size))
  when g.poll_flag (poll_once control_pub)

-- `mainLoop` up to its loop: the control and the data socket.
unfoldable pub open_sockets : M Globals (Addr × Addr)
unfolding create_socket check_int
open_sockets = do
  g ← vars
  control_sub ← create_socket g.the_context zmq_sub
  t ← call (zmq_setsockopt control_sub zmq_subscribe (text_value []))
  check_int t.rc
  r ← call (zmq_bind control_sub control_endpoint)
  check_int r.rc
  data_sub ← create_socket g.the_context zmq_sub
  q ← call (zmq_bind data_sub data_endpoint)
  check_int q.rc
  ret (control_sub, data_sub)

-- `mainLoop` with fuel for its loop: `false` when the fuel has run out in the loop.
unfoldable pub main_loop : ℕ → M Globals Bool
unfolding open_sockets close_socket
main_loop fuel = do
  socks ← open_sockets
  ended ← serve_loop fuel socks.0 socks.1
  (if ended then (do close_socket socks.0; close_socket socks.1; ret true) else ret false)
