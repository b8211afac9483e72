-- ===== src/Peer/Issue3186/Main.antt =====
-- `main` of `3186/peer.cpp` before and behind its loop. The text of the uuid and of the endpoint to
-- bind, which `uuid_unparse` and `sprintf` write, are arguments.
use zmqtests.Base.{ℕ, Bool, true, false, ◌&&◌, none, some, [], if◌then◌else◌}
use zmqtests.Base.Int.{ℤ, pos, negsuc, ltb_ℤ, eqb_ℤ, ◌+ℤ◌}
use zmqtests.Base.Text.{Bytes, bytes}
use zmqtests.Zmq.{
  Addr, SocketType, zmq_pub, zmq_sub, zmq_socket, zmq_setsockopt, zmq_getsockopt, zmq_linger,
  zmq_reconnect_ivl, zmq_subscribe, zmq_last_endpoint, int_value, text_value, zmq_socket_monitor,
  zmq_bind, zmq_connect, zmq_close, zmq_ctx_new, zmq_ctx_shutdown, zmq_ctx_term, time, usleep,
}
use zmqtests.Zmq.Time.{microseconds}
use zmqtests.Zmq.Monad.{M, ◌>>=◌, ◌>>◌, ret, call, run_call, when, assert, call_int_func, logged}
use zmqtests.Peer.Table.{Peers}
use zmqtests.Peer.Issue3186.{Params, Setup, is_on, peer_loop}
use zmqtests.Monitor.Lifecycle.{Handles, must_call, start_monitor, stop_monitor}

-- All variables of `3186/params.c`.
pub record Options : Type 0 where
  pub seconds : ℤ
  pub sleep_at_exit : ℤ
  pub port : ℤ
  pub disable_reconnect : ℤ
  pub linger : ℤ
  pub long_lived : ℤ
  pub early_linger : ℤ
  pub socket_monitor : ℤ
  pub loop : Params

-- The loop begins with an empty table, which is local to `main`.
unfoldable pub with_no_peers : M Peers Bool → M Handles Bool
with_no_peers m env w =
    let r = m env (record { calls = w.calls; log = w.log; vars = [] }) in
    (r.0, record { calls = r.1.calls; log = r.1.log; vars = w.vars })

module _ (o : Options) where
  -- A socket with its early options. The pointer is not tested.
  unfoldable pub open_socket : Addr → SocketType → Bytes → M Handles Addr
  open_socket context ty endpoint = do
    r ← call (zmq_socket context ty)
    when (is_on o.early_linger) (logged (zmq_setsockopt r.ptr zmq_linger (int_value o.linger)))
    when (is_on o.socket_monitor) (logged (zmq_socket_monitor r.ptr (some endpoint)))
    ret r.ptr

  unfoldable pub shut_socket : Addr → M Handles (Unit {0})
  unfolding must_call
  shut_socket s = do
    when (eqb_ℤ o.early_linger (pos 0)) (logged (zmq_setsockopt s zmq_linger (int_value o.linger)))
    when (is_on o.socket_monitor) (must_call (zmq_socket_monitor s none))
    logged (zmq_close s)

  -- The endpoint of the bound socket; where `zmq_getsockopt` fails, the text stays.
  unfoldable pub bind_data_pub : Addr → Bytes → M Handles Bytes
  bind_data_pub data_pub endpoint = do
    logged (zmq_bind data_pub endpoint)
    r ← call_int_func (zmq_getsockopt data_pub zmq_last_endpoint)
    ret (if ltb_ℤ r.rc (pos 0) then endpoint else r.text)

  unfoldable pub when_to_end : M Handles ℤ
  when_to_end =
      if eqb_ℤ o.long_lived (pos 0) && ltb_ℤ (pos 0) o.seconds
      then (do now ← call time; ret (now.rc +ℤ o.seconds))
      else ret (pos 0)

  -- From the context on to the loop.
  unfoldable pub setup : Bytes → Bytes → M Handles (Addr × Setup)
  setup the_uuid endpoint = do
    context ← call zmq_ctx_new
    when (is_on o.socket_monitor) (start_monitor context.ptr)
    data_pub ← open_socket context.ptr zmq_pub (bytes "inproc://dataPub")
    pub_endpoint ← bind_data_pub data_pub endpoint
    proxy_pub ← open_socket context.ptr zmq_pub (bytes "inproc://proxyPub")
    proxy_sub ← open_socket context.ptr zmq_sub (bytes "inproc://proxySub")
    logged (zmq_setsockopt proxy_sub zmq_subscribe (text_value []))
    logged (zmq_connect proxy_sub (bytes "tcp://127.0.0.1:5555"))
    data_sub ← open_socket context.ptr zmq_sub (bytes "inproc://dataSub")
    when (is_on o.disable_reconnect)
        (logged (zmq_setsockopt data_sub zmq_reconnect_ivl (int_value (negsuc 0))))
    logged (zmq_setsockopt data_sub zmq_subscribe (text_value []))
    end_time ← when_to_end
    ret (
      context.ptr,
      record {
        params = o.loop;
        the_uuid = the_uuid;
        pub_endpoint = pub_endpoint;
        data_pub = data_pub;
        proxy_pub = proxy_pub;
        proxy_sub = proxy_sub;
        data_sub = data_sub;
        end_time = end_time;
      },
    )

  unfoldable pub close_sockets : Setup → M Handles (Unit {0})
  close_sockets s = do
    shut_socket s.data_pub
    shut_socket s.data_sub
    shut_socket s.proxy_pub
    shut_socket s.proxy_sub

  -- `usleep(sleepAtExit*ONE_MILLION)`: a product outside `int` has no meaning, and the model aborts.
  unfoldable pub sleep_at_end : M Handles (Unit {0})
  sleep_at_end = do
    assert (ltb_ℤ o.sleep_at_exit (pos 2148))
    run_call (usleep (microseconds o.sleep_at_exit))

  -- From the loop on to the end.
  unfoldable pub teardown : Addr → Setup → M Handles (Unit {0})
  unfolding sleep_at_end
  teardown context s = do
    close_sockets s
    when (is_on o.socket_monitor) stop_monitor
    when (ltb_ℤ (pos 0) o.sleep_at_exit) sleep_at_end
    logged (zmq_ctx_shutdown context)
    logged (zmq_ctx_term context)

  -- `main` with fuel for its loop: `true` when it has come to its end.
  unfoldable pub main : ℕ → Bytes → Bytes → M Handles Bool
  main fuel the_uuid endpoint = do
    made ← setup the_uuid endpoint
    left ← with_no_peers (peer_loop made.1 fuel)
    (if left then (do teardown made.0 made.1; ret true) else ret false)
