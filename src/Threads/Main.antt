-- ===== src/Threads/Main.antt =====
-- `main` of the threads programs, in two parts: up to the start of the control threads, and from
-- their end on. In between the other threads change the globals. `pthread_t` has 8 bytes, and
-- `command_thread` is the array that `new` returns.
pub mod Registered
pub mod Parts
pub mod EndToEnd
use zmqtests.Base.{ℕ, zero, suc, ◌+◌, ◌*◌, false, List, [], ◌∷◌, ◌-◌}
use zmqtests.Base.Int.{ℤ, pos, negsuc}
use zmqtests.Base.Table.{insert}
use zmqtests.Zmq.{
  Addr, zmq_ctx_new, zmq_ctx_set_blocky, zmq_ctx_destroy, zmq_bind, zmq_connect, zmq_close,
  zmq_server, zmq_client, pthread_create, pthread_join, pthread_key_create, usleep, Routine,
  ControlMsg, Diag, World, done,
}
use zmqtests.Zmq.Time.{microseconds}
use zmqtests.Zmq.Monad.{
  M, ◌>>=◌, ◌>>◌, ret, skip, vars, set_vars, call, run_call, abort, check_void, check_int, when,
}
use zmqtests.Threads.Globals.{addr_key, Globals, exit_command, control_endpoint}
use zmqtests.Threads.Sockets.{create_socket}
use zmqtests.Threads.Sending.{send_control_msg}
use zmqtests.Threads.Results.{check_results, print_results, exit_code}
use zmqtests.Threads.PubSub.{poll_once}
use zmqtests.Threads.ClientServer

-- `&commandThread[i]`
unfoldable pub thread_addr : Addr → ℕ → Addr
thread_addr command_thread i = command_thread + 8 * i

-- The loop that makes the entries, for the `n` threads from the `i`-th on.
unfoldable pub register : Addr → ℕ → ℕ → Globals → Globals
register command_thread i zero g = g
register command_thread i (suc n) g = register command_thread (suc i) n (record g {
  max_control_msg_sent = insert (thread_addr command_thread i) 0 g.max_control_msg_sent;
  max_control_msg_received = insert (thread_addr command_thread i) 0 g.max_control_msg_received;
})

-- The loop that starts the threads, and their handles.
unfoldable pub start_commands : Addr → ℕ → ℕ → M Globals (List Addr)
start_commands command_thread i zero = ret []
start_commands command_thread i (suc n) = do
  r ← call (pthread_create Routine.command_loop (thread_addr command_thread i))
  handles ← start_commands command_thread (suc i) n
  ret (r.ptr ∷ handles)

-- `new` throws for a negative number of threads.
unfoldable pub launch : Addr → ℤ → M Globals (List Addr)
launch command_thread (negsuc n) = abort
launch command_thread (pos n) = do
  g ← vars
  set_vars (register command_thread 0 n g)
  start_commands command_thread 0 n

unfoldable pub init_context : M Globals (Unit {0})
unfolding check_void check_int
init_context = do
  r ← call zmq_ctx_new
  g ← vars
  set_vars (record g { the_context = r.ptr })
  check_void r.ptr
  q ← call (zmq_ctx_set_blocky r.ptr false)
  check_int q.rc

-- The main thread and the control threads.
unfoldable pub start_threads : Addr → M Globals (Addr × List Addr)
start_threads command_thread = do
  main_thread ← call (pthread_create Routine.main_loop 0)
  g ← vars
  handles ← launch command_thread g.num_threads
  ret (main_thread.ptr, handles)

-- `main` of the programs with a socket for each thread, up to the start of the threads.
unfoldable pub start : Addr → M Globals (Addr × List Addr)
start command_thread = do init_context; run_call pthread_key_create; start_threads command_thread

unfoldable pub join_all : List Addr → M Globals (Unit {0})
join_all [] = skip
join_all (h ∷ hs) = do run_call (pthread_join h); join_all hs

abbrev pub push_all : List Diag → List Diag → List Diag
push_all [] log = log
push_all (d ∷ ds) log = push_all ds (d ∷ log)

-- The last lines of `main`: the results, and the exit code.
unfoldable pub report : M Globals ℕ
report env w = (
  done (exit_code w.vars),
  record w {
    vars = (print_results (check_results w.vars)).0;
    log = push_all ((print_results (check_results w.vars)).1) w.log;
  },
)

unfoldable pub destroy_context : M Globals (Unit {0})
unfolding check_int
destroy_context = do g ← vars; r ← call (zmq_ctx_destroy g.the_context); check_int r.rc

unfoldable pub shut_down : M Globals (Unit {0})
shut_down = do r ← call (pthread_create Routine.shutdown_func 0); run_call (pthread_join r.ptr)

-- `main` of the same programs from the joins on.
unfoldable pub finish : Addr → List Addr → M Globals ℕ
finish main_thread handles = do
  join_all handles
  g ← vars
  run_call (usleep (microseconds g.sleep_duration))
  shut_down
  run_call (pthread_join main_thread)
  destroy_context
  report

-- `main` of the three programs with a socket for each thread: but for a line that is printed, they
-- are the same.
abbrev pub pub_sub_start : Addr → M Globals (Addr × List Addr)
pub_sub_start = start

abbrev pub pub_sub_finish : Addr → List Addr → M Globals ℕ
pub_sub_finish = finish

abbrev pub push_pull_start : Addr → M Globals (Addr × List Addr)
push_pull_start = start

abbrev pub push_pull_finish : Addr → List Addr → M Globals ℕ
push_pull_finish = finish

abbrev pub pairs_start : Addr → M Globals (Addr × List Addr)
pairs_start = start

abbrev pub pairs_finish : Addr → List Addr → M Globals ℕ
pairs_finish = finish

-- The other program: `main` makes the two control sockets, the first of the result.
unfoldable pub control_sockets : M Globals (Addr × Addr)
unfolding create_socket check_int poll_once
control_sockets = do
  g ← vars
  control_sub ← create_socket g.the_context zmq_server
  r ← call (zmq_bind control_sub control_endpoint)
  check_int r.rc
  control_pub ← create_socket g.the_context zmq_client
  q ← call (zmq_connect control_pub control_endpoint)
  check_int q.rc
  when g.poll_flag (poll_once control_pub)
  ret (control_sub, control_pub)

unfoldable pub client_server_start : Addr → M Globals ((Addr × Addr) × (Addr × List Addr))
client_server_start command_thread = do
  init_context
  socks ← control_sockets
  threads ← start_threads command_thread
  ret (socks, threads)

unfoldable pub client_server_finish : Addr → Addr → Addr → List Addr → M Globals ℕ
unfolding send_control_msg check_int
client_server_finish control_sub control_pub main_thread handles = do
  join_all handles
  g ← vars
  run_call (usleep (microseconds g.sleep_duration))
  send_control_msg (ClientServer.send_command control_pub control_sub) exit_command 0 0
  run_call (pthread_join main_thread)
  r ← call (zmq_close control_pub)
  check_int r.rc
  q ← call (zmq_close control_sub)
  check_int q.rc
  destroy_context
  report
