-- ===== src/Tests/PingPong.antt =====
-- A run of ping and pong with each other.
use zmqtests.Base.{◌≡◌, refl, ap, true, List, [], ◌∷◌, drop, arith}
use zmqtests.Base.Int.{pos}
use zmqtests.Zmq.{Addr, RequestMsg, Call, zmq_recv, Reply, Env, World, done}
use zmqtests.Tests.{no_reply}
use zmqtests.Params.PingPong.{Options, defaults}
use zmqtests.PingPong.Sockets.{Sockets, tested_socket, control_sockets}
use zmqtests.PingPong.Ping.{open_ping}
use zmqtests.PingPong.Pong.{open_pong}
use zmqtests.PingPong.Session.{published, reads, Hears, requests}
use zmqtests.PingPong.EndToEnd.{main-eq-requests}
use zmqtests.PingPong.Ping
use zmqtests.PingPong.Pong

abbrev two_requests : Options
two_requests = record defaults { num_requests = pos 2 }

abbrev next_message : List RequestMsg → RequestMsg
next_message [] = record { topic = []; type_name = [] }
next_message (m ∷ ms) = m

-- The messages are read in their order, and all sockets are one.
abbrev tape_reply : List RequestMsg → List Call → Call → Reply
tape_reply ms cs (zmq_recv s) = record no_reply {
  request_msg = next_message (drop (reads s cs) ms);
}
tape_reply ms cs c = record no_reply { ptr = 1 }

abbrev tape : List RequestMsg → Env
tape ms = tape_reply ms

tape-Hears : (s : Addr) (ms : List RequestMsg) → Hears (tape ms) s (zmq_recv s) ms
tape-Hears s ms = record { heard = λ cs m rest e. (ap next_message e, refl) }

abbrev at_start : World (Unit {0})
at_start = record { calls = []; log = []; vars = tt }

abbrev one_socket : Sockets
one_socket = record { context = 1; control_sub = 1; control_pub = 1; publisher = 1; subscriber = 1 }

opened_ping :
    (ms : List RequestMsg) → (open_ping two_requests (tape ms) at_start).0 ≡ done one_socket
unfolding open_ping tested_socket control_sockets
opened_ping ms = refl

opened_pong : (open_pong two_requests (tape (requests 1)) at_start).0 ≡ done one_socket
unfolding open_pong tested_socket control_sockets
opened_pong = refl

main-eq-requests_example :
    ((Pong.main two_requests 1 (tape (requests 1)) at_start).0 ≡ done tt)
    × ((Ping.main two_requests 2
          (tape (published 1 (Pong.main two_requests 1 (tape (requests 1)) at_start).1.calls))
          at_start).0
        ≡ done true)
    × (published 1
          (Ping.main two_requests 2
            (tape (published 1 (Pong.main two_requests 1 (tape (requests 1)) at_start).1.calls))
            at_start).1.calls
        ≡ requests 1)
main-eq-requests_example =
    main-eq-requests two_requests two_requests
      (tape (published 1 (Pong.main two_requests 1 (tape (requests 1)) at_start).1.calls))
      (tape (requests 1)) at_start at_start one_socket one_socket 1 1 refl refl (omega arith) refl
      (opened_ping _) opened_pong (tape-Hears 1 (requests 1)) (tape-Hears 1 _)
