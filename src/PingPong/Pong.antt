-- ===== src/PingPong/Pong.antt =====
-- `pingpong/pong.cpp`.
use zmqtests.Base.{ℕ, zero, suc, [], if◌then◌else◌}
use zmqtests.Base.Text.{Bytes, bytes, str_eq}
use zmqtests.Zmq.{
  Addr, Call, RequestMsg, request, zmq_dontwait, zmq_pub, zmq_sub, zmq_ctx_new, zmq_socket,
  zmq_bind, zmq_connect, zmq_setsockopt, zmq_subscribe, text_value, zmq_send, zmq_recv,
  zmq_recv_now,
}
use zmqtests.Zmq.Monad.{M, ◌>>=◌, ◌>>◌, ret, call, assert, call_int_func, logged}
use zmqtests.Params.PingPong.{Options}
use zmqtests.PingPong.Sockets.{Sockets, endpoint_of, control_sockets, wait_for}

-- `strcpy (requestMsg.type, …)`
abbrev pub typed : RequestMsg → Bytes → RequestMsg
typed m type_name = record m { type_name = type_name }

-- Behind a poll the message is read without waiting.
abbrev pub read_call : Options → Addr → Call
read_call o subscriber = if o.poll_flag then zmq_recv_now subscriber else zmq_recv subscriber

module _ (o : Options) (s : Sockets) where
  -- The memory is read whether or not the call has succeeded.
  unfoldable pub pong_round : M (Unit {0}) (Unit {0})
  unfolding wait_for
  pong_round = do
    wait_for o s
    r ← call_int_func (read_call o s.subscriber)
    assert (str_eq (r.request_msg.type_name) (bytes "request"))
    logged (zmq_send s.publisher (request (typed r.request_msg (bytes "ack"))) zmq_dontwait)
    logged (zmq_send s.publisher (request (typed r.request_msg (bytes "response"))) zmq_dontwait)

  -- The first rounds of `while (1)`, as many as there is fuel.
  unfoldable pub pong_loop : ℕ → M (Unit {0}) (Unit {0})
  pong_loop zero = ret tt
  pong_loop (suc fuel) = do pong_round; pong_loop fuel

module _ (o : Options) where
  unfoldable pub open_pong : M (Unit {0}) Sockets
  open_pong = do
    context ← call zmq_ctx_new
    control ← control_sockets context.ptr
    p ← call (zmq_socket context.ptr zmq_pub)
    logged (zmq_bind p.ptr (endpoint_of o.pong_port))
    q ← call (zmq_socket context.ptr zmq_sub)
    logged (zmq_setsockopt q.ptr zmq_subscribe (text_value []))
    logged (zmq_connect q.ptr (endpoint_of o.ping_port))
    ret (record {
      context = context.ptr;
      control_sub = control.0;
      control_pub = control.1;
      publisher = p.ptr;
      subscriber = q.ptr;
    })

  -- `main` up to some round of its loop, which it never leaves.
  unfoldable pub main : ℕ → M (Unit {0}) (Unit {0})
  main fuel = do s ← open_pong; pong_loop o s fuel
