-- ===== src/Peer/Proxy.antt =====
-- The proxies: `3186/proxy.c` and `reconnect/proxy.cpp`, with the texts that `uuid_unparse` and
-- `sprintf` write as arguments.
pub mod Welcome
use zmqtests.Base.{Bool, true, false, if◌then◌else◌}
use zmqtests.Base.Int.{pos, ltb_ℤ}
use zmqtests.Base.Text.{Bytes, bytes}
use zmqtests.Zmq.{
  Addr, zmq_xsub, zmq_xpub, zmq_ctx_new, zmq_socket, zmq_bind, zmq_getsockopt, zmq_last_endpoint,
  zmq_setsockopt, zmq_xpub_welcome_msg, msg_value, zmq_proxy, zmq_close, zmq_ctx_destroy, signal,
}
use zmqtests.Zmq.Monad.{M, ◌>>=◌, ◌>>◌, ret, call, run_call, assert}
use zmqtests.Peer.Table.{strings_fit, welcome_command}

-- The endpoint that libzmq has chosen for the frontend; the text is whatever was in the array if
-- the call fails, which no code tests.
unfoldable pub frontend_at : Addr → Bytes → M (Unit {0}) (Addr × Bytes)
frontend_at context endpoint = do
  r ← call (zmq_socket context zmq_xsub)
  run_call (zmq_bind r.ptr endpoint)
  q ← call (zmq_getsockopt r.ptr zmq_last_endpoint)
  ret (r.ptr, q.text)

-- The backend with its welcome message.
unfoldable pub backend_at : Addr → Bytes → Bytes → Bytes → M (Unit {0}) Addr
unfolding strings_fit
backend_at context the_uuid sub_endpoint endpoint = do
  r ← call (zmq_socket context zmq_xpub)
  assert (strings_fit the_uuid sub_endpoint)
  run_call (
      zmq_setsockopt r.ptr zmq_xpub_welcome_msg (
        msg_value (record { command = welcome_command; uuid = the_uuid; endpoint = sub_endpoint })))
  run_call (zmq_bind r.ptr endpoint)
  ret r.ptr

-- The rest of both programs: the proxy runs until it is interrupted, and the handler does nothing.
unfoldable pub run_proxy : Addr → Addr → Addr → M (Unit {0}) (Unit {0})
run_proxy context frontend backend = do
  run_call signal
  run_call (zmq_proxy frontend backend)
  run_call (zmq_close frontend)
  run_call (zmq_close backend)
  run_call (zmq_ctx_destroy context)

unfoldable pub main_at : Bytes → Bytes → Bytes → M (Unit {0}) (Unit {0})
main_at the_uuid front back = do
  context ← call zmq_ctx_new
  frontend ← frontend_at context.ptr front
  backend ← backend_at context.ptr the_uuid frontend.1 back
  run_proxy context.ptr frontend.0 backend

-- `main` of `3186/proxy.c`.
unfoldable pub main : Bytes → M (Unit {0}) (Unit {0})
unfolding main_at
main the_uuid = main_at the_uuid (bytes "tcp://127.0.0.1:*") (bytes "tcp://127.0.0.1:5555")

-- `main` of `reconnect/proxy.cpp`.
unfoldable pub main_reconnect : Bytes → Bytes → Bytes → M (Unit {0}) (Unit {0})
unfolding main_at
main_reconnect the_uuid front back = main_at the_uuid front back
