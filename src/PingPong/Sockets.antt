-- ===== src/PingPong/Sockets.antt =====
-- What the two programs have in common, and `kickSocket` and `getMicros` of `pingpong/common.c`.
use zmqtests.Base.{not, [], ◌∷◌, ◌==◌, ◌++◌, if◌then◌else◌}
use zmqtests.Base.Int.{ℤ, negsuc}
use zmqtests.Base.Text.{Bytes, bytes}
use zmqtests.Zmq.{
  Addr, Call, SocketType, zmq_server, zmq_client, zmq_socket, zmq_bind, zmq_connect, zmq_close,
  zmq_poll, zmq_getsockopt, zmq_events, zmq_ctx_shutdown, zmq_ctx_term, gettimeofday,
}
use zmqtests.Zmq.Monad.{M, ◌>>=◌, ◌>>◌, ret, call, run_call, when, assert, logged}
use zmqtests.Clib.Decimal.{decimal}
use zmqtests.Params.PingPong.{Options}

-- The result is tested by `CALL_INT_FUNC` where it is used.
abbrev pub kick_socket : Addr → Call
kick_socket s = zmq_getsockopt s zmq_events

-- The time is only printed.
unfoldable pub get_micros : M (Unit {0}) (Unit {0})
get_micros = run_call gettimeofday

-- `sprintf (endpoint, "tcp://127.0.0.1:%d", port)`
unfoldable pub endpoint_of : ℤ → Bytes
endpoint_of port = bytes "tcp://127.0.0.1:" ++ decimal port

-- `assert (s)` behind `zmq_socket`
unfoldable pub tested_socket : Addr → SocketType → M (Unit {0}) Addr
tested_socket context ty = do r ← call (zmq_socket context ty); assert (not (r.ptr == 0)); ret r.ptr

-- The two control sockets, the one to read from first.
unfoldable pub control_sockets : Addr → M (Unit {0}) (Addr × Addr)
unfolding tested_socket
control_sockets context = do
  control_sub ← tested_socket context zmq_server
  logged (zmq_bind control_sub (bytes "inproc://monitor"))
  control_pub ← tested_socket context zmq_client
  logged (zmq_connect control_pub (bytes "inproc://monitor"))
  ret (control_sub, control_pub)

-- The sockets of a program.
pub record Sockets : Type 0 where
  pub context : Addr
  pub control_sub : Addr
  pub control_pub : Addr
  pub publisher : Addr
  pub subscriber : Addr

module _ (o : Options) where
  -- With the switch for it, the socket is polled before a message is read.
  unfoldable pub wait_for : Sockets → M (Unit {0}) (Unit {0})
  wait_for s = when o.poll_flag (
      logged (
        zmq_poll (if o.control_flag then s.subscriber ∷ s.control_sub ∷ [] else s.subscriber ∷ [])
          (negsuc 0)))

unfoldable pub close_all : Sockets → M (Unit {0}) (Unit {0})
close_all s = do
  logged (zmq_close s.publisher)
  logged (zmq_close s.subscriber)
  logged (zmq_close s.control_sub)
  logged (zmq_close s.control_pub)
  logged (zmq_ctx_shutdown s.context)
  logged (zmq_ctx_term s.context)
