-- ===== src/Peer/Issue3186/Sockets.antt =====
-- The sockets of `main` of `3186/peer.cpp`: those opened are closed.
use zmqtests.Base.{◌≡◌, List, [], ◌∷◌, none, arith}
use zmqtests.Base.Int.{pos}
use zmqtests.Zmq.{Addr, Call, zmq_socket_monitor, zmq_close, Env, World, done}
use zmqtests.Peer.Issue3186.{Setup}
use zmqtests.Peer.Issue3186.Main.{Options, shut_socket, close_sockets}
use zmqtests.Monitor.Lifecycle.{Handles}

-- The sockets closed so far, newest first, and how many were made.
abbrev pub add_closed : Call → List Addr → List Addr
add_closed (zmq_close s) ss = s ∷ ss
add_closed c ss = ss

unfoldable pub closed_sockets : List Call → List Addr
closed_sockets [] = []
closed_sockets (c ∷ cs) = add_closed c (closed_sockets cs)

module _ (o : Options) (env : Env)
    (stops : (cs : List Call) (s : Addr) → (env cs (zmq_socket_monitor s none)).rc ≡ pos 0) where
  shut_socket-closes :
      (s : Addr) (w : World Handles)
      → ((shut_socket o s env w).0 ≡ done tt)
        × (closed_sockets (shut_socket o s env w).1.calls ≡ s ∷ closed_sockets w.calls)
  unfolding shut_socket closed_sockets
  shut_socket-closes s w = grind (arith, stops)

-- The closing of the sockets of `main` comes to its end and closes exactly the four sockets of the
-- loop, each once: the publisher first, then the data socket, the proxy publisher and the proxy
-- subscriber. This holds for all options; the condition is that stopping a monitor returns 0.
pub close_sockets-closes :
    (o : Options) (env : Env)
    → ((cs : List Call) (s : Addr) → (env cs (zmq_socket_monitor s none)).rc ≡ pos 0)
    → (s : Setup) (w : World Handles)
    → ((close_sockets o s env w).0 ≡ done tt)
      × (closed_sockets (close_sockets o s env w).1.calls
          ≡ s.proxy_sub ∷ s.proxy_pub ∷ s.data_sub ∷ s.data_pub ∷ closed_sockets w.calls)
unfolding close_sockets
close_sockets-closes o env stops s w =
    (grind (arith, shut_socket-closes o env stops), grind (arith, shut_socket-closes o env stops))
