-- ===== src/Monitor/Lifecycle.antt =====
-- The monitor thread: `startMonitor`, `stopMonitor` and `monitorFunc` of the monitor.cpp files, and
-- `connectMonitor` of `reconnect/connect.cpp`.
use zmqtests.Base.{ℕ, zero, suc, Bool, true, false, not, List, [], ◌∷◌, ◌==◌, if◌then◌else◌}
use zmqtests.Base.Int.{pos, negsuc, eqb_ℤ}
use zmqtests.Base.Text.{Bytes, bytes}
use zmqtests.Zmq.{
  Addr, raw, no_flag, zmq_pair, zmq_server, zmq_client, zmq_socket, zmq_bind, zmq_connect,
  zmq_close, zmq_poll, zmq_send, pthread_create, pthread_join, Routine, SocketType, Call,
}
use zmqtests.Zmq.Monad.{M, ◌>>=◌, ◌>>◌, ret, vars, set_vars, call, when, assert}
use zmqtests.Monitor.Events.{EventCodes}
use zmqtests.Monitor.Frames.{monitor_event, monitor_event_v2}

-- The global variables of the monitor.cpp files.
pub record Handles : Type 0 where
  pub monitor_thread : Addr
  pub monitor_sub : Addr
  pub monitor_pub : Addr

abbrev pub monitor_endpoint : Bytes
monitor_endpoint = bytes "inproc://monitor"

-- `assert(rc == 0)`
unfoldable pub must_call : {G : Type 0} → Call → M G (Unit {0})
must_call c = do r ← call c; assert (eqb_ℤ r.rc (pos 0))

unfoldable pub must_open : {G : Type 0} → Addr → SocketType → M G Addr
must_open context ty = do r ← call (zmq_socket context ty); assert (not (r.ptr == 0)); ret r.ptr

-- `startMonitor` with the function of the thread.
unfoldable pub start_monitor_with : Addr → Routine → M Handles (Unit {0})
unfolding must_call must_open
start_monitor_with context routine = do
  monitor_sub ← must_open context zmq_server
  must_call (zmq_bind monitor_sub monitor_endpoint)
  monitor_pub ← must_open context zmq_client
  must_call (zmq_connect monitor_pub monitor_endpoint)
  r ← call (pthread_create routine context)
  set_vars (record { monitor_thread = r.ptr; monitor_sub = monitor_sub; monitor_pub = monitor_pub })
  assert (eqb_ℤ r.rc (pos 0))

unfoldable pub start_monitor : Addr → M Handles (Unit {0})
start_monitor context = start_monitor_with context Routine.monitor_func

unfoldable pub stop_monitor : M Handles (Unit {0})
unfolding must_call
stop_monitor = do
  g ← vars
  r ← call (zmq_send g.monitor_pub (raw (bytes "X")) no_flag)
  assert (eqb_ℤ r.rc (pos 1))
  must_call (pthread_join g.monitor_thread)
  must_call (zmq_close g.monitor_pub)
  must_call (zmq_close g.monitor_sub)

-- A PAIR socket at the monitor endpoint of a socket.
unfoldable pub pair_at : {G : Type 0} → Addr → Bytes → M G Addr
unfolding must_open must_call
pair_at context endpoint = do
  s ← must_open context zmq_pair
  must_call (zmq_connect s endpoint)
  ret s

-- The sockets of `monitorFunc` in the order of its poll items.
pub record Pairs : Type 0 where
  pub data_pub : Addr
  pub data_sub : Addr
  pub proxy_pub : Addr
  pub proxy_sub : Addr

abbrev pub nth_ready : ℕ → List Bool → Bool
nth_ready n [] = false
nth_ready zero (b ∷ bs) = b
nth_ready (suc n) (b ∷ bs) = nth_ready n bs

module _ (codes : EventCodes) where
  -- The branch of one poll item.
  unfoldable pub event_at : Bool → Addr → Bytes → M Handles (Unit {0})
  unfolding monitor_event
  event_at ready s name = when ready (do rc ← monitor_event codes s name; assert (eqb_ℤ rc (pos 0)))

  -- One round of `monitorFunc`, and whether the loop is left.
  unfoldable pub monitor_round : Pairs → M Handles Bool
  monitor_round p = do
    g ← vars
    r ← call (
        zmq_poll (p.data_pub ∷ p.data_sub ∷ p.proxy_pub ∷ p.proxy_sub ∷ g.monitor_sub ∷ [])
          (negsuc 0))
    event_at (nth_ready 0 r.ready) p.data_pub (bytes "dataPub")
    event_at (nth_ready 1 r.ready) p.data_sub (bytes "dataSub")
    event_at (nth_ready 2 r.ready) p.proxy_pub (bytes "proxyPub")
    event_at (nth_ready 3 r.ready) p.proxy_sub (bytes "proxySub")
    ret (nth_ready 4 r.ready)

  -- The loop with fuel: `true` when it has been left.
  unfoldable pub monitor_loop : ℕ → Pairs → M Handles Bool
  monitor_loop zero p = ret false
  monitor_loop (suc fuel) p =
      let rest = monitor_loop fuel p in
      do leaving ← monitor_round p; (if leaving then ret true else rest)

  unfoldable pub open_pairs : Addr → M Handles Pairs
  open_pairs context = do
    data_pub ← pair_at context (bytes "inproc://dataPub")
    data_sub ← pair_at context (bytes "inproc://dataSub")
    proxy_pub ← pair_at context (bytes "inproc://proxyPub")
    proxy_sub ← pair_at context (bytes "inproc://proxySub")
    ret (record {
      data_pub = data_pub;
      data_sub = data_sub;
      proxy_pub = proxy_pub;
      proxy_sub = proxy_sub;
    })

  unfoldable pub close_pairs : Pairs → M Handles (Unit {0})
  unfolding must_call
  close_pairs p = do
    must_call (zmq_close p.data_pub)
    must_call (zmq_close p.data_sub)
    must_call (zmq_close p.proxy_pub)
    must_call (zmq_close p.proxy_sub)

  -- `monitorFunc` of `3186/` and `reconnect/`.
  unfoldable pub monitor_func : ℕ → Addr → M Handles Bool
  monitor_func fuel context = do
    p ← open_pairs context
    left ← monitor_loop fuel p
    (if left then (do close_pairs p; ret true) else ret false)

  -- `monitorFunc` of `connect/`, whose loop has no way out.
  unfoldable pub endless_loop_v2 : ℕ → Addr → M Handles Bool
  endless_loop_v2 zero data_sub = ret false
  endless_loop_v2 (suc fuel) data_sub = do
    r ← call (zmq_poll (data_sub ∷ []) (negsuc 0))
    when (nth_ready 0 r.ready)
        (do rc ← monitor_event_v2 codes data_sub (bytes "dataSub"); assert (rc == 0))
    endless_loop_v2 fuel data_sub

  unfoldable pub monitor_func_v2 : ℕ → Addr → M Handles Bool
  unfolding must_call
  monitor_func_v2 fuel context = do
    data_sub ← pair_at context (bytes "inproc://dataSub")
    left ← endless_loop_v2 fuel data_sub
    (if left then (do must_call (zmq_close data_sub); ret true) else ret false)

  -- `connectMonitor`, whose loop has no way out either.
  unfoldable pub endless_loop : ℕ → Addr → M Handles Bool
  endless_loop zero data_sub = ret false
  endless_loop (suc fuel) data_sub = do
    r ← call (zmq_poll (data_sub ∷ []) (negsuc 0))
    event_at (nth_ready 0 r.ready) data_sub (bytes "dataSub")
    endless_loop fuel data_sub

  unfoldable pub connect_monitor : ℕ → Addr → M Handles Bool
  unfolding must_call
  connect_monitor fuel context = do
    data_sub ← pair_at context (bytes "inproc://dataSub")
    left ← endless_loop fuel data_sub
    (if left then (do must_call (zmq_close data_sub); ret true) else ret false)
