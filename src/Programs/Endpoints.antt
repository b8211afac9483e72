-- ===== src/Programs/Endpoints.antt =====
-- Which addresses and ports fit the arrays that the programs print them to.
use zmqtests.Base.{
  inl, inr, Bool-cases, ◌&&◌, ℕ, ◌+◌, ◌≤◌, ◌≡◌, refl, Bool, true, List, ◌∷◌, length, length-append,
  drop, arith,
}
use zmqtests.Base.Int.{is_int, IsInt, ℤ, pos, pos_part, neg_part}
use zmqtests.Base.Text.{Bytes, bytes}
use zmqtests.Zmq.{Call, getpid, uuid_generate, uuid_unparse, Env, World, done, aborted}
use zmqtests.Clib.Decimal.{decimal, length-decimal}
use zmqtests.Params.Line.{line}
use zmqtests.Params.Names.{misses}
use zmqtests.Params.Reconnect.{rules, address_items, parse_params-address_items}
use zmqtests.Params.Issue3186.RoundTrip.{Wish, wish_items, options_of, parse_params-wish_items}
use zmqtests.Monitor.Lifecycle.{Handles}
use zmqtests.Monitor.Connect.{main_connect, main_dummy}
use zmqtests.Peer.Proxy.{main_reconnect}
use zmqtests.Params.PingPong.{Options, ping_items, parse_params-ping_items}
use zmqtests.PingPong.Sockets.{endpoint_of}
use zmqtests.Programs.{
  ping_program, pong_program, make_uuid, tcp_endpoint, print_endpoint, peer_3186, peer_reconnect,
  proxy_reconnect, connect_program, dummy_program,
}
use zmqtests.PingPong.Ping
use zmqtests.PingPong.Pong
use zmqtests.Peer.Issue3186.Main as Peer3186
use zmqtests.Peer.Reconnect.Main as PeerReconnect

length-tcp_endpoint :
    (host : Bytes) (port : ℤ)
    → length (tcp_endpoint host port) ≡ 7 + (length host + length (decimal port))
unfolding tcp_endpoint
length-tcp_endpoint host port = omega (arith, length-append host (58 ∷ decimal port))

module _ {G : Type 0} (host : Bytes) (port : ℤ) (env : Env) (w : World G) where
  print_endpoint-fits :
      length host ≤ 238
      → IsInt port
      → print_endpoint host port env w ≡ (done (tcp_endpoint host port), w)
  unfolding print_endpoint
  print_endpoint-fits short int =
      ground (arith, short, length-decimal port int.0 int.1, length-tcp_endpoint host port)

  print_endpoint-overruns : 250 ≤ length host → print_endpoint host port env w ≡ (aborted, w)
  unfolding print_endpoint
  print_endpoint-overruns long = ground (arith, length-tcp_endpoint host port)

-- The text of a uuid made behind the calls, and the world behind that.
abbrev pub uuid_text : Env → List Call → Bytes
uuid_text env cs = (env (uuid_generate ∷ cs) uuid_unparse).text

abbrev pub with_uuid : {G : Type 0} → World G → World G
with_uuid w = record w { calls = uuid_unparse ∷ uuid_generate ∷ w.calls }

abbrev pub with_pid : {G : Type 0} → World G → World G
with_pid w = record w { calls = getpid ∷ w.calls }

-- The command line that gives the four options in full.
abbrev pub full_line : Bytes → ℤ → ℤ → ℤ → List Bytes
full_line host port interval stop = line (address_items host port interval stop)

-- A command line with the four options in full, an address of at most 238 bytes that is not itself
-- taken for another option, and the three numbers of type `int`: the texts that `reconnect/peer.cpp`,
-- `reconnect/proxy.cpp`, `connect/connect.cpp` and `connect/dummy.cpp` print of them fit their arrays,
-- and each program runs on as its `main` does with these texts and the numbers of the command line,
-- and with the uuid that it has made before, where it makes one.
pub programs-fit :
    (host : Bytes) (port interval stop : ℤ) (fuel : ℕ) (has_stop : Bool) (env : Env)
    (w : World Handles) (v : World (Unit {0}))
    → misses (drop 1 rules) host ≡ true
    → length host ≤ 238
    → IsInt port
    → IsInt interval
    → IsInt stop
    → (peer_reconnect fuel has_stop (full_line host port interval stop) env w
        ≡ PeerReconnect.main fuel has_stop stop
            (uuid_text env (with_pid w).calls)
            (tcp_endpoint host port)
            (tcp_endpoint host (pos 5555))
            env
            (with_uuid (with_pid w)))
      × (proxy_reconnect (full_line host port interval stop) env v
          ≡ main_reconnect
              (uuid_text env v.calls)
              (tcp_endpoint host (pos 0))
              (tcp_endpoint host (pos 5555))
              env
              (with_uuid v))
      × (connect_program (full_line host port interval stop) env w
          ≡ main_connect interval stop (tcp_endpoint host port) env w)
      × (dummy_program (full_line host port interval stop) env w
          ≡ main_dummy (tcp_endpoint host port) env w)
unfolding peer_reconnect proxy_reconnect make_uuid connect_program dummy_program
programs-fit host port interval stop fuel has_stop env w v clear short int int_interval int_stop =
    let read = parse_params-address_items host port interval stop clear in
    let int_all : (is_int port && (is_int interval && (is_int stop && true))) ≡ true =
      ground (arith, int, int_interval, int_stop) in
    let small : IsInt (pos 5555) = (omega arith, omega arith) in
    let none : IsInt (pos 0) = (omega arith, omega arith) in
    let fits = print_endpoint-fits host port env w short int in
    let fits_peer = print_endpoint-fits host port env (with_uuid (with_pid w)) short int in
    let fits_proxy = print_endpoint-fits host (pos 5555) env (with_uuid (with_pid w)) short small in
    let fits_front = print_endpoint-fits host (pos 0) env (with_uuid v) short none in
    let fits_back = print_endpoint-fits host (pos 5555) env (with_uuid v) short small in
    rw (read, int_all)
      (rw (fits, fits_peer, fits_proxy, fits_front, fits_back) (refl, refl, refl, refl))

-- The same four programs print behind the ends of their arrays where the address has 250 bytes or
-- more and is not itself taken for another option. There the model aborts, as it does where one of the numbers
-- is not of type `int`.
pub programs-overrun :
    (host : Bytes) (port interval stop : ℤ) (fuel : ℕ) (has_stop : Bool) (env : Env)
    (w : World Handles) (v : World (Unit {0}))
    → misses (drop 1 rules) host ≡ true
    → 250 ≤ length host
    → ((peer_reconnect fuel has_stop (full_line host port interval stop) env w).0 ≡ aborted)
      × ((proxy_reconnect (full_line host port interval stop) env v).0 ≡ aborted)
      × ((connect_program (full_line host port interval stop) env w).0 ≡ aborted)
      × ((dummy_program (full_line host port interval stop) env w).0 ≡ aborted)
unfolding peer_reconnect proxy_reconnect make_uuid connect_program dummy_program
programs-overrun host port interval stop fuel has_stop env w v clear long =
    let read = parse_params-address_items host port interval stop clear in
    let over = print_endpoint-overruns host port env w long in
    let over_peer = print_endpoint-overruns host port env (with_uuid (with_pid w)) long in
    let over_front = print_endpoint-overruns host (pos 0) env (with_uuid v) long in
    elim (Bool-cases (is_int port && (is_int interval && (is_int stop && true)))) [
      | inl int ↦ rw (read, int) (rw (over, over_peer, over_front) (refl, refl, refl, refl))
      | inr large ↦ rw (read, large) (refl, refl, refl, refl)
    ]

-- `3186/peer.cpp` on every command line that gives the options in full, with numbers of type `int`
-- and at most 2147 seconds to sleep at the exit, whose microseconds are then of type `int` as well:
-- the text that it prints of the port fits its array, and it runs on as its `main` does with this
-- text, the uuid that it has made before, and the thirteen variables as they are wished.
pub peer_3186-fits :
    (wish : Wish) (fuel : ℕ) (env : Env) (w : World Handles)
    → IsInt wish.seconds
    → pos_part wish.sleep_at_exit ≤ 2147
    → neg_part wish.sleep_at_exit ≤ 2147
    → IsInt wish.port
    → IsInt wish.linger
    → peer_3186 fuel (line (wish_items wish)) env w
      ≡ Peer3186.main
          (options_of wish)
          fuel
          (uuid_text env (with_pid w).calls)
          (tcp_endpoint (bytes "127.0.0.1") wish.port)
          env
          (with_uuid (with_pid w))
unfolding peer_3186 make_uuid
peer_3186-fits wish fuel env w seconds most least int linger =
    rw (parse_params-wish_items wish seconds (omega (arith, most), omega (arith, least)) int linger)
      (rw
        (print_endpoint-fits (bytes "127.0.0.1") wish.port env (with_uuid (with_pid w))
          (omega arith) int)
        refl)

length-endpoint_of : (port : ℤ) → IsInt port → length (endpoint_of port) ≤ 256
unfolding endpoint_of
length-endpoint_of port int = omega (
  arith,
  length-append (bytes "tcp://127.0.0.1:") (decimal port),
  length-decimal port int.0 int.1,
)

-- `pingpong/ping.cpp` and `pingpong/pong.cpp` on every command line that gives the options in full:
-- where the two ports and the number of requests are of type `int`, they run on as their `main`
-- does with the five variables as they are given, and the texts that they print of the ports have at
-- most the 256 bytes that their arrays have room for.
pub ping_pong-fit :
    (q : Options) (fuel : ℕ) (env : Env) (w : World (Unit {0}))
    → IsInt q.ping_port
    → IsInt q.pong_port
    → IsInt q.num_requests
    → (ping_program fuel (line (ping_items q)) env w ≡ Ping.main q fuel env w)
      × (pong_program fuel (line (ping_items q)) env w ≡ Pong.main q fuel env w)
      × (length (endpoint_of q.ping_port) ≤ 256)
      × (length (endpoint_of q.pong_port) ≤ 256)
unfolding ping_program pong_program
ping_pong-fit q fuel env w ping pong requests =
    rw (parse_params-ping_items q ping pong requests)
      (refl, refl, length-endpoint_of q.ping_port ping, length-endpoint_of q.pong_port pong)
