-- ===== src/PingPong/Ping.antt =====
-- `pingpong/ping.cpp`.
use zmqtests.Base.{ℕ, zero, suc, Bool, true, false, not, [], if◌then◌else◌}
use zmqtests.Base.Int.{pos, ltb_ℤ, eqb_ℤ}
use zmqtests.Base.Text.{Bytes, bytes, str_eq}
use zmqtests.Zmq.{
  Addr, RequestMsg, request, no_flag, zmq_pub, zmq_sub, zmq_ctx_new, zmq_bind, zmq_connect,
  zmq_setsockopt, zmq_subscribe, text_value, zmq_send, zmq_recv, sleep,
}
use zmqtests.Zmq.Monad.{M, ◌>>=◌, ◌>>◌, ret, call, run_call, assert, call_int_func, logged}
use zmqtests.Params.PingPong.{Options}
use zmqtests.PingPong.Sockets.{
  Sockets, kick_socket, get_micros, endpoint_of, tested_socket, control_sockets, wait_for,
  close_all,
}

abbrev pub request_msg : RequestMsg
request_msg = record { topic = bytes "TOPIC"; type_name = bytes "request" }

-- An answer is read over the message that is there, which stays where the call fails, and must be of
-- this type.
unfoldable pub read_answer : Addr → Bytes → RequestMsg → M (Unit {0}) RequestMsg
read_answer subscriber type_name old = do
  r ← call_int_func (zmq_recv subscriber)
  let m = if ltb_ℤ r.rc (pos 0) then old else r.request_msg
  assert (str_eq m.type_name type_name)
  ret m

module _ (o : Options) (s : Sockets) where
  unfoldable pub ping_round : M (Unit {0}) (Unit {0})
  unfolding wait_for read_answer
  ping_round = do
    logged (zmq_send s.publisher (request request_msg) no_flag)
    wait_for o s
    ack ← read_answer s.subscriber (bytes "ack") request_msg
    wait_for o s
    answer ← read_answer s.subscriber (bytes "response") ack
    ret tt

  -- `while (++requestNum < numRequests)` with fuel: `true` when the loop has ended.
  unfoldable pub ping_loop : ℕ → ℕ → M (Unit {0}) Bool
  ping_loop zero request_num = ret false
  ping_loop (suc fuel) request_num =
      let rest = ping_loop fuel (suc request_num) in
      if ltb_ℤ (pos (suc request_num)) o.num_requests then (do ping_round; rest) else ret true

module _ (o : Options) where
  unfoldable pub open_ping : M (Unit {0}) Sockets
  unfolding tested_socket
  open_ping = do
    context ← call zmq_ctx_new
    control ← control_sockets context.ptr
    publisher ← tested_socket context.ptr zmq_pub
    logged (zmq_bind publisher (endpoint_of o.ping_port))
    subscriber ← tested_socket context.ptr zmq_sub
    logged (zmq_setsockopt subscriber zmq_subscribe (text_value []))
    logged (zmq_connect subscriber (endpoint_of o.pong_port))
    run_call (sleep (pos 1))
    logged (kick_socket publisher)
    ret (record {
      context = context.ptr;
      control_sub = control.0;
      control_pub = control.1;
      publisher = publisher;
      subscriber = subscriber;
    })

  -- `main` with fuel for its loop: `true` when it has come to its end. The mean latency is a division
  -- by the number of requests.
  unfoldable pub main : ℕ → M (Unit {0}) Bool
  main fuel = do
    s ← open_ping
    get_micros
    ended ← ping_loop o s fuel 0
    (if ended
        then (do get_micros; assert (not (eqb_ℤ o.num_requests (pos 0))); close_all s; ret true)
        else ret false)
