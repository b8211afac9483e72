-- ===== src/Monitor/Connect.antt =====
-- `main` of `connect/connect.cpp`, `connect/dummy.cpp` and `reconnect/connect.cpp`, with the text that
-- `sprintf` writes as an argument.
use zmqtests.Base.{Bool, ◌∷◌, none, some, []}
use zmqtests.Base.Int.{ℤ, pos}
use zmqtests.Base.Text.{Bytes, bytes}
use zmqtests.Zmq.{
  Addr, Routine, zmq_pub, zmq_sub, zmq_ctx_new, zmq_ctx_shutdown, zmq_ctx_term, zmq_socket,
  zmq_socket_monitor, zmq_socket_monitor_versioned, zmq_setsockopt, zmq_reconnect_ivl,
  zmq_handshake_ivl, zmq_reconnect_stop, zmq_min_zmtp_version, zmq_subscribe, int_value, text_value,
  zmq_bind, zmq_connect, zmq_close, sleep,
}
use zmqtests.Zmq.Monad.{M, ◌>>=◌, ◌>>◌, call, run_call, when, logged}
use zmqtests.Monitor.Lifecycle.{Handles, must_call, must_open, start_monitor_with, stop_monitor}

-- The endpoint that the monitor threads connect to.
abbrev pub watched : Bytes
watched = bytes "inproc://dataSub"

-- Behind the long sleep.
unfoldable pub close_watched : Addr → M Handles (Unit {0})
unfolding must_call
close_watched s = do must_call (zmq_socket_monitor s none); logged (zmq_close s)

unfoldable pub end_context : Addr → M Handles (Unit {0})
end_context context = do logged (zmq_ctx_shutdown context); logged (zmq_ctx_term context)

-- `main` of `connect/connect.cpp`.
unfoldable pub main_connect : ℤ → ℤ → Bytes → M Handles (Unit {0})
main_connect interval stop_reconnect_on_error endpoint = do
  context ← call zmq_ctx_new
  start_monitor_with context.ptr Routine.monitor_func
  r ← call (zmq_socket context.ptr zmq_sub)
  logged (zmq_socket_monitor_versioned r.ptr watched 2)
  logged (zmq_setsockopt r.ptr zmq_reconnect_ivl (int_value interval))
  logged (zmq_setsockopt r.ptr zmq_handshake_ivl (int_value interval))
  logged (zmq_setsockopt r.ptr zmq_reconnect_stop (int_value stop_reconnect_on_error))
  logged (zmq_setsockopt r.ptr zmq_subscribe (text_value []))
  logged (zmq_connect r.ptr endpoint)
  run_call (sleep (pos 120))
  close_watched r.ptr
  stop_monitor
  end_context context.ptr

-- `main` of `connect/dummy.cpp`.
unfoldable pub main_dummy : Bytes → M Handles (Unit {0})
unfolding must_open
main_dummy endpoint = do
  context ← call zmq_ctx_new
  start_monitor_with context.ptr Routine.monitor_func
  s ← must_open context.ptr zmq_pub
  logged (zmq_socket_monitor_versioned s watched 2)
  logged (zmq_bind s endpoint)
  run_call (sleep (pos 99999))
  close_watched s
  end_context context.ptr

-- `main` of `reconnect/connect.cpp`. The Booleans say which options the libzmq that the program is
-- built with defines.
unfoldable pub main_reconnect_connect : Bool → Bool → ℤ → ℤ → Bytes → M Handles (Unit {0})
main_reconnect_connect has_min_version has_stop interval stop_reconnect_on_error endpoint = do
  context ← call zmq_ctx_new
  start_monitor_with context.ptr Routine.connect_monitor
  r ← call (zmq_socket context.ptr zmq_sub)
  logged (zmq_socket_monitor r.ptr (some watched))
  logged (zmq_setsockopt r.ptr zmq_reconnect_ivl (int_value interval))
  logged (zmq_setsockopt r.ptr zmq_handshake_ivl (int_value interval))
  when has_min_version
      (logged (zmq_setsockopt r.ptr zmq_min_zmtp_version (text_value (3 ∷ 0 ∷ []))))
  when has_stop
      (logged (zmq_setsockopt r.ptr zmq_reconnect_stop (int_value stop_reconnect_on_error)))
  logged (zmq_setsockopt r.ptr zmq_subscribe (text_value []))
  logged (zmq_connect r.ptr endpoint)
  run_call (sleep (pos 120))
  close_watched r.ptr
  stop_monitor
  end_context context.ptr
