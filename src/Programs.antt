-- ===== src/Programs.antt =====
-- The programs that take an address or a port, from their command line on: `parseParams`, the text
-- that `sprintf` makes of the address and the port, and the rest of `main`. The texts are printed here
-- before the context is made; in the code some calls come before, which do not depend on them.
pub mod Endpoints
pub mod ThreadsRun
use zmqtests.Base.{ℕ, Bool, Option, none, some, List, ◌∷◌, ◌++◌, leb, length}
use zmqtests.Base.Int.{ℤ, pos}
use zmqtests.Base.Text.{Bytes, bytes}
use zmqtests.Zmq.{Addr, getpid, uuid_generate, uuid_unparse, zmq_version, signal}
use zmqtests.Zmq.Monad.{M, ◌>>=◌, ◌>>◌, ret, abort, assert, vars, set_vars, call, run_call}
use zmqtests.Threads.Globals.{Globals}
use zmqtests.Clib.Decimal.{decimal}
use zmqtests.Params.{Parsed, parsed, undefined, running}
use zmqtests.Params.Reconnect.{Options}
use zmqtests.Peer.Table.{zmq_max_endpoint_length}
use zmqtests.Monitor.Lifecycle.{Handles}
use zmqtests.Monitor.Connect.{main_connect, main_dummy, main_reconnect_connect}
use zmqtests.Peer.Proxy.{main_reconnect}
use zmqtests.Peer.Proxy
use zmqtests.Params.Issue3186
use zmqtests.Params.Reconnect
use zmqtests.Params.PingPong
use zmqtests.PingPong.Ping
use zmqtests.PingPong.Pong
use zmqtests.Threads.Params as ThreadsParams
use zmqtests.Peer.Issue3186.Main as Peer3186
use zmqtests.Peer.Reconnect.Main as PeerReconnect

-- The conversion of `"tcp://%s:%d"`.
unfoldable pub tcp_endpoint : Bytes → ℤ → Bytes
tcp_endpoint host port = bytes "tcp://" ++ (host ++ b':' ∷ decimal port)

-- `sprintf` of it into an array for `ZMQ_MAX_ENDPOINT_LENGTH` bytes and the closing zero. A longer
-- text is written behind the array.
unfoldable pub print_endpoint : {G : Type 0} → Bytes → ℤ → M G Bytes
unfolding tcp_endpoint
print_endpoint host port = do
  assert (leb (length (tcp_endpoint host port)) zmq_max_endpoint_length)
  ret (tcp_endpoint host port)

-- A program has no meaning where `parseParams` has none.
abbrev pub with_params : {G O A : Type 0} → Parsed O → (O → M G A) → M G A
with_params (parsed o) k = k o
with_params undefined k = abort
with_params running k = abort

-- `tcpAddr` where it is printed.
abbrev pub with_host : {G A : Type 0} → Option Bytes → (Bytes → M G A) → M G A
with_host none k = abort
with_host (some host) k = k host

-- The uuid as a text, which `uuid_unparse` writes.
unfoldable pub make_uuid : {G : Type 0} → M G Bytes
make_uuid = do run_call uuid_generate; r ← call uuid_unparse; ret r.text

-- `3186/peer.cpp`
unfoldable pub peer_3186 : ℕ → List Bytes → M Handles Bool
unfolding print_endpoint make_uuid
peer_3186 fuel args = with_params (Issue3186.parse_params args) (λ o. do
  run_call getpid
  the_uuid ← make_uuid
  endpoint ← print_endpoint (bytes "127.0.0.1") o.port
  Peer3186.main o fuel the_uuid endpoint)

-- `reconnect/peer.cpp`, whose second text, for the proxy, has the port 5555.
unfoldable pub peer_reconnect : ℕ → Bool → List Bytes → M Handles Bool
unfolding print_endpoint make_uuid
peer_reconnect fuel has_stop args = with_params (Reconnect.parse_params args) (λ o.
    with_host o.tcp_addr (λ host. do
      run_call getpid
      the_uuid ← make_uuid
      endpoint ← print_endpoint host o.port
      proxy_endpoint ← print_endpoint host (pos 5555)
      PeerReconnect.main fuel has_stop o.stop_reconnect_on_error the_uuid endpoint proxy_endpoint))

-- `reconnect/proxy.cpp`, whose two texts have fixed ports.
unfoldable pub proxy_reconnect : List Bytes → M (Unit {0}) (Unit {0})
unfolding print_endpoint make_uuid
proxy_reconnect args = with_params (Reconnect.parse_params args) (λ o. with_host o.tcp_addr (λ host.
    do
      the_uuid ← make_uuid
      front ← print_endpoint host (pos 0)
      back ← print_endpoint host (pos 5555)
      main_reconnect the_uuid front back))

-- `3186/proxy.c`, which reads no options.
unfoldable pub proxy_3186 : M (Unit {0}) (Unit {0})
unfolding make_uuid
proxy_3186 = do the_uuid ← make_uuid; Proxy.main the_uuid

-- `connect/connect.cpp`
unfoldable pub connect_program : List Bytes → M Handles (Unit {0})
unfolding print_endpoint
connect_program args = with_params (Reconnect.parse_connect_params args) (λ o.
    with_host o.tcp_addr (λ host. do
      endpoint ← print_endpoint host o.port
      main_connect o.interval o.stop_reconnect_on_error endpoint))

-- `connect/dummy.cpp`
unfoldable pub dummy_program : List Bytes → M Handles (Unit {0})
unfolding print_endpoint
dummy_program args = with_params (Reconnect.parse_connect_params args) (λ o.
    with_host o.tcp_addr (λ host. do endpoint ← print_endpoint host o.port; main_dummy endpoint))

-- `reconnect/connect.cpp`, which prints the local address.
unfoldable pub reconnect_connect_program : Bool → Bool → List Bytes → M Handles (Unit {0})
unfolding print_endpoint
reconnect_connect_program has_min_version has_stop args =
    with_params (Reconnect.parse_params args) (λ o. do
      endpoint ← print_endpoint (bytes "127.0.0.1") o.port
      main_reconnect_connect has_min_version has_stop o.interval o.stop_reconnect_on_error endpoint)

-- `pingpong/ping.cpp` and `pingpong/pong.cpp`
unfoldable pub ping_program : ℕ → List Bytes → M (Unit {0}) Bool
ping_program fuel args = with_params (PingPong.parse_params args) (λ o. Ping.main o fuel)

unfoldable pub pong_program : ℕ → List Bytes → M (Unit {0}) (Unit {0})
pong_program fuel args = with_params (PingPong.parse_params args) (λ o. Pong.main o fuel)

-- `printVersion` of `threads/common.h`; the line that it prints is left out.
unfoldable pub print_version : {G : Type 0} → M G (Unit {0})
print_version = run_call zmq_version

-- The threads programs up to the start of the control threads: `begin` is what `main` of the program
-- does behind the installing of the signal handler, `on_signal`.
unfoldable pub threads_start :
    {R : Type 0} → (ℤ → ℤ) → (Addr → M Globals R) → List Bytes → Addr → M Globals R
unfolding print_version
threads_start sleep_of_rate begin argv a = do
  print_version
  g ← vars
  with_params (ThreadsParams.parse_params sleep_of_rate g argv)
      (λ g'. do set_vars g'; run_call signal; begin a)
