-- ===== src/Peer/Reconnect/Main.antt =====
-- `main` of `reconnect/peer.cpp` before and behind its loop, with the texts that `uuid_unparse` and
-- `sprintf` write as arguments.
use zmqtests.Base.{ℕ, Bool, true, false, none, some, [], if◌then◌else◌}
use zmqtests.Base.Int.{ℤ, pos, ltb_ℤ}
use zmqtests.Base.Text.{Bytes, bytes}
use zmqtests.Zmq.{
  Addr, zmq_pub, zmq_sub, zmq_socket, zmq_setsockopt, zmq_getsockopt, zmq_heartbeat_ivl,
  zmq_reconnect_stop, zmq_subscribe, zmq_last_endpoint, int_value, text_value, zmq_socket_monitor,
  zmq_bind, zmq_connect, zmq_close, zmq_ctx_new, zmq_ctx_shutdown, zmq_ctx_term, SocketType,
}
use zmqtests.Zmq.Monad.{M, ◌>>=◌, ◌>>◌, ret, call, when, call_int_func, logged}
use zmqtests.Peer.Issue3186.Main.{with_no_peers}
use zmqtests.Peer.Reconnect.{Setup, peer_loop}
use zmqtests.Monitor.Lifecycle.{Handles, must_call, start_monitor, stop_monitor}

-- A socket with a monitor.
unfoldable pub watched_socket : Addr → SocketType → Bytes → M Handles Addr
watched_socket context ty endpoint = do
  r ← call (zmq_socket context ty)
  logged (zmq_socket_monitor r.ptr (some endpoint))
  ret r.ptr

unfoldable pub close_watched : Addr → M Handles (Unit {0})
unfolding must_call
close_watched s = do must_call (zmq_socket_monitor s none); logged (zmq_close s)

unfoldable pub bind_data_pub : Addr → Bytes → M Handles Bytes
bind_data_pub data_pub endpoint = do
  logged (zmq_bind data_pub endpoint)
  r ← call_int_func (zmq_getsockopt data_pub zmq_last_endpoint)
  ret (if ltb_ℤ r.rc (pos 0) then endpoint else r.text)

-- From the context on to the loop: the context, the data socket to publish on and the loop's
-- variables.
unfoldable pub setup : Bool → ℤ → Bytes → Bytes → Bytes → M Handles (Addr × Addr × Setup)
setup has_stop stop_reconnect_on_error the_uuid endpoint proxy_endpoint = do
  context ← call zmq_ctx_new
  start_monitor context.ptr
  data_pub ← watched_socket context.ptr zmq_pub (bytes "inproc://dataPub")
  pub_endpoint ← bind_data_pub data_pub endpoint
  proxy_pub ← watched_socket context.ptr zmq_pub (bytes "inproc://proxyPub")
  proxy_sub ← watched_socket context.ptr zmq_sub (bytes "inproc://proxySub")
  logged (zmq_setsockopt proxy_sub zmq_subscribe (text_value []))
  logged (zmq_connect proxy_sub proxy_endpoint)
  data_sub ← watched_socket context.ptr zmq_sub (bytes "inproc://dataSub")
  logged (zmq_setsockopt data_sub zmq_heartbeat_ivl (int_value (pos 1000)))
  when has_stop
      (logged (zmq_setsockopt data_sub zmq_reconnect_stop (int_value stop_reconnect_on_error)))
  logged (zmq_setsockopt data_sub zmq_subscribe (text_value []))
  ret (
    context.ptr,
    data_pub,
    record {
      has_stop = has_stop;
      stop_reconnect_on_error = stop_reconnect_on_error;
      the_uuid = the_uuid;
      pub_endpoint = pub_endpoint;
      proxy_pub = proxy_pub;
      proxy_sub = proxy_sub;
      data_sub = data_sub;
    },
  )

-- From the loop on to the end.
unfoldable pub teardown : Addr → Addr → Setup → M Handles (Unit {0})
teardown context data_pub s = do
  close_watched data_pub
  close_watched s.data_sub
  close_watched s.proxy_pub
  close_watched s.proxy_sub
  stop_monitor
  logged (zmq_ctx_shutdown context)
  logged (zmq_ctx_term context)

-- `main` with fuel for its loop: `true` when it has come to its end.
unfoldable pub main : ℕ → Bool → ℤ → Bytes → Bytes → Bytes → M Handles Bool
main fuel has_stop stop_reconnect_on_error the_uuid endpoint proxy_endpoint = do
  made ← setup has_stop stop_reconnect_on_error the_uuid endpoint proxy_endpoint
  left ← with_no_peers (peer_loop made.2 fuel)
  (if left then (do teardown made.0 made.1 made.2; ret true) else ret false)
