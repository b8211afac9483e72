-- ===== src/Threads/Sockets.antt =====
-- `createSocket`, `closeSocket` and `cleanupSocket` of `threads/common.h`.
use zmqtests.Zmq.{Addr, SocketType, zmq_socket, zmq_setsockopt, zmq_linger, int_value, zmq_close}
use zmqtests.Zmq.Monad.{M, ◌>>=◌, ◌>>◌, ret, vars, call, run_call, check_void, check_int}
use zmqtests.Threads.Globals.{Globals}

-- The return code of `zmq_setsockopt` is not read.
unfoldable pub create_socket : Addr → SocketType → M Globals Addr
unfolding check_void
create_socket context ty = do
  r ← call (zmq_socket context ty)
  check_void r.ptr
  g ← vars
  run_call (zmq_setsockopt r.ptr zmq_linger (int_value g.linger))
  ret r.ptr

unfoldable pub close_socket : Addr → M Globals (Unit {0})
unfolding check_int
close_socket sock = do r ← call (zmq_close sock); check_int r.rc

-- The destructor of the pthread key.
unfoldable pub cleanup_socket : Addr → M Globals (Unit {0})
unfolding close_socket
cleanup_socket sock = close_socket sock
