-- ===== src/Zmq.antt =====
-- The calls that the programs make, as values: libzmq, pthreads and the clock are not in the
-- repository, so each call is recorded and its reply is chosen by an environment, an arbitrary
-- function of the calls made before. The message structs are those of threads/common.h,
-- reconnect/common.h and pingpong/common.h.
pub mod Monad
pub mod Rules
pub mod Time
use zmqtests.Base.{ℕ, Bool, false, List, [], ◌∷◌, Option}
use zmqtests.Base.Int.{ℤ}
use zmqtests.Base.Text.{Bytes}

-- A pointer or handle; 0 is NULL.
abbrev pub Addr : Type 0
Addr = ℕ

-- `zmqControlMsg` of threads/common.h. The numbers sent start at 1, so `long` is a natural number.
pub record ControlMsg : Type 0 where
  pub command : ℕ
  pub void_arg : Addr
  pub long_arg : ℕ

-- `connectMsg`: two C strings in arrays of 37 and 257 bytes.
pub record ConnectMsg : Type 0 where
  pub command : ℕ
  pub uuid : Bytes
  pub endpoint : Bytes

-- `requestMsg` of pingpong/common.h.
pub record RequestMsg : Type 0 where
  pub topic : Bytes
  pub type_name : Bytes

pub data Payload : Type 0 where
  control : ControlMsg → Payload
  connect : ConnectMsg → Payload
  request : RequestMsg → Payload
  raw : Bytes → Payload

pub data SocketType : Type 0 where
  zmq_pair zmq_pub zmq_sub zmq_push zmq_pull zmq_server zmq_client zmq_xpub zmq_xsub : SocketType

pub data SockOpt : Type 0 where
  zmq_linger zmq_subscribe zmq_reconnect_ivl zmq_handshake_ivl zmq_heartbeat_ivl : SockOpt
  zmq_reconnect_stop zmq_min_zmtp_version zmq_last_endpoint zmq_events zmq_identity : SockOpt
  zmq_xpub_welcome_msg : SockOpt

pub data OptValue : Type 0 where
  int_value : ℤ → OptValue
  text_value : Bytes → OptValue
  msg_value : ConnectMsg → OptValue

pub data SendFlag : Type 0 where
  no_flag zmq_dontwait zmq_sndmore : SendFlag

-- The functions that the programs start threads with.
pub data Routine : Type 0 where
  main_loop command_loop shutdown_func monitor_func connect_monitor : Routine

pub data Call : Type 0 where
  zmq_ctx_new : Call
  zmq_ctx_set_blocky : Addr → Bool → Call
  zmq_ctx_shutdown zmq_ctx_term zmq_ctx_destroy : Addr → Call
  zmq_socket : Addr → SocketType → Call
  zmq_setsockopt : Addr → SockOpt → OptValue → Call
  zmq_getsockopt : Addr → SockOpt → Call
  zmq_bind zmq_connect zmq_disconnect : Addr → Bytes → Call
  zmq_close : Addr → Call
  zmq_poll : List Addr → ℤ → Call
  zmq_send : Addr → Payload → SendFlag → Call
  -- The second one has `ZMQ_DONTWAIT`.
  zmq_recv zmq_recv_now zmq_msg_recv : Addr → Call
  -- With no endpoint the monitor of the socket is stopped.
  zmq_socket_monitor : Addr → Option Bytes → Call
  zmq_socket_monitor_versioned : Addr → Bytes → ℕ → Call
  zmq_proxy : Addr → Addr → Call
  -- The routine and its argument.
  pthread_create : Routine → Addr → Call
  pthread_join : Addr → Call
  pthread_key_create pthread_mutex_lock pthread_mutex_unlock : Call
  pthread_setspecific : Addr → Call
  usleep sleep : ℤ → Call
  -- `uuid_unparse` writes the text of the uuid that `uuid_generate` has made.
  time gettimeofday getpid uuid_generate uuid_unparse : Call
  -- `signal (SIGINT, ...)` with the handler of the program.
  zmq_version signal : Call

-- What a call returns and writes: the return code, a returned pointer, the `revents` bits
-- `ZMQ_POLLIN` of a poll, a string written to a buffer, and the received memory as the receiver
-- reads it. A field that the call does not set is whatever the memory held.
pub record Reply : Type 0 where
  pub rc : ℤ
  pub ptr : Addr
  pub ready : List Bool
  pub text : Bytes
  pub more : Bool
  pub control_msg : ControlMsg
  pub connect_msg : ConnectMsg
  pub request_msg : RequestMsg

-- The environment: its reply to a call after the calls made so far, newest first.
abbrev pub Env : Type 0
Env = List Call → Call → Reply

-- Lines written to stderr that depend on what happened. The lines printed on every run, and those
-- behind the debug switch, are left out.
pub data Diag : Type 0 where
  call_failed : Diag
  wrong_number : Addr → ℕ → ℕ → Diag
  unknown_control : ℕ → Diag
  sent_received : Addr → ℕ → ℕ → Diag
  -- Name of the socket, event, value, description and endpoint.
  monitor_line : Bytes → ℕ → ℤ → Bytes → Bytes → Diag
  -- Name of the socket, description, value, local and remote address.
  monitor_line_v2 : Bytes → Bytes → ℕ → Bytes → Bytes → Diag

-- What a program has done so far, and its variables.
pub record World (G : Type 0) : Type 0 where
  pub calls : List Call
  pub log : List Diag
  pub vars : G

-- A failed `assert`, or `exit`, ends the program.
pub data Outcome (A : Type 0) : Type 0 where
  done : A → Outcome A
  aborted : Outcome A

-- `revents & ZMQ_POLLIN` of the first and the second item of a poll.
abbrev pub ready_0 : List Bool → Bool
ready_0 [] = false
ready_0 (b ∷ bs) = b

abbrev pub ready_1 : List Bool → Bool
ready_1 [] = false
ready_1 (b ∷ bs) = ready_0 bs
