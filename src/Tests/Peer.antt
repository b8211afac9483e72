-- ===== src/Tests/Peer.antt =====
-- Runs of the two peer programs.
use zmqtests.Base.{◌≡◌, ◌≢◌, refl, true, false, List, [], ◌∷◌, arith}
use zmqtests.Base.Int.{pos}
use zmqtests.Base.Table.{lookup, held}
use zmqtests.Base.Text.{Bytes, bytes}
use zmqtests.Tests.{no_reply}
use zmqtests.Zmq.{ConnectMsg, Call, zmq_recv, zmq_poll, Reply, Env, World, done}
use zmqtests.Zmq.Rules.{IsDone}
use zmqtests.Peer.Table.{bytes_key, Peers, strings_fit, connect_command, welcome_command}
use zmqtests.Peer.Issue3186.{Setup, is_on, handle_msg, peer_loop}
use zmqtests.Peer.Issue3186.Directory.{track_from}
use zmqtests.Peer.Issue3186.Run.{heard, peer_loop-tracks}
use zmqtests.Peer.Issue3186.Links.{IsLinked, opened, closed}
use zmqtests.Peer.Issue3186.Balance.{peer_loop-IsLinked}
use zmqtests.Peer.Issue3186.Main.{Options, close_sockets}
use zmqtests.Peer.Issue3186.Sockets.{closed_sockets, close_sockets-closes}
use zmqtests.Monitor.Lifecycle.{Handles}
use zmqtests.Peer.Reconnect
use zmqtests.Peer.Reconnect.Agreement.{plain, handle_msg-agrees}

abbrev own_uuid : Bytes
own_uuid = bytes "a"

abbrev own_endpoint : Bytes
own_endpoint = bytes "tcp://127.0.0.1:7001"

abbrev pub sample : Setup
sample = record {
  params = record {
    fix1256 = pos 1;
    send_after_disconnect = pos 1;
    immediate_exit = pos 0;
    duplicate_disconnect = pos 0;
    poll_after_disconnect = pos 1;
  };
  the_uuid = own_uuid;
  pub_endpoint = own_endpoint;
  data_pub = 1;
  proxy_pub = 2;
  proxy_sub = 3;
  data_sub = 4;
  end_time = pos 0;
}

abbrev hello : ConnectMsg
hello = record { command = connect_command; uuid = own_uuid; endpoint = own_endpoint }

-- Every poll finds a message from the proxy, which is the peer's own connect message.
abbrev echo_reply : List Call → Call → Reply
echo_reply cs (zmq_recv s) = record no_reply { connect_msg = hello }
echo_reply cs (zmq_poll ss t) = record no_reply { ready = true ∷ [] }
echo_reply cs c = no_reply

abbrev echo : Env
echo = echo_reply

abbrev at_start : World Peers
at_start = record { calls = []; log = []; vars = [] }

peer_loop-tracks_example :
    IsDone (peer_loop sample 3 echo at_start).0
    × ((u : Bytes)
        → lookup u (peer_loop sample 3 echo at_start).1.vars
          ≡ track_from u
              (lookup u at_start.vars)
              (heard echo 3 (peer_loop sample 3 echo at_start).1.calls))
unfolding heard strings_fit
peer_loop-tracks_example =
    peer_loop-tracks sample echo refl (λ cs. refl) (ground arith) 3 at_start refl

at_start-IsLinked : IsLinked 4 (λ u. own_endpoint) at_start
unfolding opened closed lookup held
at_start-IsLinked = record { distinct = tt; named = λ u e q. ground arith; balance = λ e. refl }

peer_loop-IsLinked_example : IsLinked 4 (λ u. own_endpoint) (peer_loop sample 3 echo at_start).1
unfolding is_on strings_fit
peer_loop-IsLinked_example =
    peer_loop-IsLinked sample echo (λ u. own_endpoint) refl (ground arith) refl (λ cs. refl) 3
      at_start at_start-IsLinked

abbrev reconnecting : Reconnect.Setup
reconnecting = record {
  the_uuid = own_uuid;
  pub_endpoint = own_endpoint;
  proxy_pub = 2;
  proxy_sub = 3;
  data_sub = 4;
  has_stop = true;
  stop_reconnect_on_error = pos 1;
}

handle_msg-agrees_example :
    (hello.command ≢ welcome_command
      → handle_msg (plain reconnecting 1) hello echo at_start
        ≡ Reconnect.handle_msg reconnecting hello echo at_start)
    × (hello.command ≡ welcome_command
        → ((handle_msg (plain reconnecting 1) hello echo at_start).0 ≡ done false)
          × ((Reconnect.handle_msg reconnecting hello echo at_start).0 ≡ done false)
          × ((handle_msg (plain reconnecting 1) hello echo at_start).1.vars ≡ at_start.vars)
          × ((Reconnect.handle_msg reconnecting hello echo at_start).1.vars ≡ at_start.vars))
handle_msg-agrees_example = handle_msg-agrees reconnecting 1 echo hello at_start

-- The options of a run with socket monitors.
abbrev watching : Options
watching = record {
  seconds = pos 0;
  sleep_at_exit = pos 0;
  port = pos 0;
  disable_reconnect = pos 0;
  linger = pos 0;
  long_lived = pos 0;
  early_linger = pos 0;
  socket_monitor = pos 1;
  loop = sample.params;
}

abbrev no_handles : World Handles
no_handles = record {
  calls = [];
  log = [];
  vars = record { monitor_thread = 0; monitor_sub = 0; monitor_pub = 0 };
}

close_sockets-closes_example :
    ((close_sockets watching sample echo no_handles).0 ≡ done tt)
    × (closed_sockets (close_sockets watching sample echo no_handles).1.calls
        ≡ 3 ∷ 2 ∷ 4 ∷ 1 ∷ closed_sockets [])
close_sockets-closes_example = close_sockets-closes watching echo (λ cs s. refl) sample no_handles
