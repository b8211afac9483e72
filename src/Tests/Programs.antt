-- ===== src/Tests/Programs.antt =====
-- Runs of programs from their command line on.
use zmqtests.Base.{ℕ, zero, suc, ◌≡◌, refl, true, List, [], ◌∷◌, ◌≤◌, drop, length, arith}
use zmqtests.Base.Int.{pos}
use zmqtests.Base.Text.{Bytes, bytes}
use zmqtests.Tests.{no_reply}
use zmqtests.Clib.Compare.{strncasecmp, to_lower}
use zmqtests.Zmq.{Env, World, aborted}
use zmqtests.Params.Line.{line}
use zmqtests.Params.Names.{misses, are_options}
use zmqtests.Params.Issue3186.RoundTrip.{options_of, wish_items}
use zmqtests.Params.PingPong.{ping_items}
use zmqtests.Monitor.Lifecycle.{Handles}
use zmqtests.Monitor.Connect.{main_connect, main_dummy}
use zmqtests.Peer.Proxy.{main_reconnect}
use zmqtests.PingPong.Sockets.{endpoint_of}
use zmqtests.Programs.{
  tcp_endpoint, peer_3186, peer_reconnect, proxy_reconnect, connect_program, dummy_program,
  ping_program, pong_program,
}
use zmqtests.Programs.Endpoints.{
  with_uuid, with_pid, full_line, programs-fit, programs-overrun, peer_3186-fits, ping_pong-fit,
}
use zmqtests.Tests.Params.{sample, polled, local_misses}
use zmqtests.Params.Reconnect
use zmqtests.PingPong.Ping
use zmqtests.PingPong.Pong
use zmqtests.Peer.Issue3186.Main as Peer3186
use zmqtests.Peer.Reconnect.Main as PeerReconnect

abbrev local : Bytes
local = bytes "127.0.0.1"

abbrev silent : Env
silent cs c = no_reply

abbrev no_monitor : World Handles
no_monitor = record {
  calls = [];
  log = [];
  vars = record { monitor_thread = 0; monitor_pub = 0; monitor_sub = 0 };
}

abbrev no_vars : World (Unit {0})
no_vars = record { calls = []; log = []; vars = tt }

abbrev sample_line : List Bytes
sample_line = full_line local (pos 7001) (pos 100) (pos 1)

programs-fit_example :
    (peer_reconnect 3 true sample_line silent no_monitor
      ≡ PeerReconnect.main 3 true
          (pos 1)
          []
          (tcp_endpoint local (pos 7001))
          (tcp_endpoint local (pos 5555))
          silent
          (with_uuid (with_pid no_monitor)))
    × (proxy_reconnect sample_line silent no_vars
        ≡ main_reconnect []
            (tcp_endpoint local (pos 0))
            (tcp_endpoint local (pos 5555))
            silent
            (with_uuid no_vars))
    × (connect_program sample_line silent no_monitor
        ≡ main_connect (pos 100) (pos 1) (tcp_endpoint local (pos 7001)) silent no_monitor)
    × (dummy_program sample_line silent no_monitor
        ≡ main_dummy (tcp_endpoint local (pos 7001)) silent no_monitor)
programs-fit_example =
    programs-fit local (pos 7001) (pos 100) (pos 1) 3 true silent no_monitor no_vars local_misses
      (omega arith) (omega arith, omega arith) (omega arith, omega arith) (omega arith, omega arith)

-- An address of 250 bytes.
abbrev zeros : ℕ → Bytes
zeros zero = []
zeros (suc n) = b'0' ∷ zeros n

abbrev long : Bytes
long = zeros 250

abbrev long_line : List Bytes
long_line = full_line long (pos 7001) (pos 100) (pos 1)

no_option_taken : misses (drop 1 Reconnect.rules) long ≡ true
unfolding misses are_options strncasecmp to_lower Reconnect.rules
no_option_taken = refl

programs-overrun_example :
    ((peer_reconnect 3 true long_line silent no_monitor).0 ≡ aborted)
    × ((proxy_reconnect long_line silent no_vars).0 ≡ aborted)
    × ((connect_program long_line silent no_monitor).0 ≡ aborted)
    × ((dummy_program long_line silent no_monitor).0 ≡ aborted)
programs-overrun_example =
    programs-overrun long (pos 7001) (pos 100) (pos 1) 3 true silent no_monitor no_vars
      no_option_taken (omega arith)

peer_3186-fits_example :
    peer_3186 3 (line (wish_items sample)) silent no_monitor
    ≡ Peer3186.main
        (options_of sample)
        3
        []
        (tcp_endpoint local (pos 7001))
        silent
        (with_uuid (with_pid no_monitor))
peer_3186-fits_example =
    peer_3186-fits sample 3 silent no_monitor (omega arith, omega arith) (omega arith) (omega arith)
      (omega arith, omega arith) (omega arith, omega arith)

ping_pong-fit_example :
    (ping_program 3 (line (ping_items polled)) silent no_vars ≡ Ping.main polled 3 silent no_vars)
    × (pong_program 3 (line (ping_items polled)) silent no_vars ≡ Pong.main polled 3 silent no_vars)
    × (length (endpoint_of (pos 7001)) ≤ 256)
    × (length (endpoint_of (pos 7002)) ≤ 256)
ping_pong-fit_example =
    ping_pong-fit polled 3 silent no_vars (omega arith, omega arith) (omega arith, omega arith)
      (omega arith, omega arith)
