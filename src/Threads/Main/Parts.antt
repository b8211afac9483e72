-- ===== src/Threads/Main/Parts.antt =====
-- What the two parts of `main` of the threads programs do to the globals, and what they return.
use zmqtests.Base.{ℕ, zero, suc, ◌≡◌, ◌≢◌, refl, List, [], ◌∷◌, arith}
use zmqtests.Base.Int.{pos}
use zmqtests.Zmq.{
  Addr, Call, zmq_ctx_new, pthread_create, pthread_join, Routine, Env, World, Outcome, done,
  aborted,
}
use zmqtests.Zmq.Monad.{call, run_call}
use zmqtests.Threads.Globals.{addr_key, Globals}
use zmqtests.Threads.Results.{exit_code}
use zmqtests.Threads.Delivery.{Succeeds}
use zmqtests.Threads.Main.{
  client_server_start, client_server_finish, control_sockets, thread_addr, register, start_commands,
  launch, init_context, start_threads, start, join_all, report, destroy_context, shut_down, finish,
}
use zmqtests.Threads.ClientServer

-- A new context is not null.
abbrev pub MakesContext : Env → Type 0
MakesContext env = (cs : List Call) → (env cs zmq_ctx_new).ptr ≢ 0

-- Whether a part of `main` has come to its end.
abbrev pub IsReturned : {A : Type 0} → Outcome A → Type 0
IsReturned (done a) = Unit {0}
IsReturned aborted = ⊥

start_commands-vars :
    (env : Env) (a : Addr) (i n : ℕ) (w : World Globals)
    → ((start_commands a i n env w).1.vars ≡ w.vars) × IsReturned (start_commands a i n env w).0
unfolding start_commands
start_commands-vars env a i zero w = (refl, tt)
start_commands-vars env a i (suc n) w =
    let rest =
      start_commands-vars env a (suc i) n
        (call (pthread_create Routine.command_loop (thread_addr a i)) env w).1 in
    ground (arith, rest)

abbrev pub with_context : Env → World Globals → Globals
with_context env w = record (w.vars) { the_context = (env w.calls zmq_ctx_new).ptr }

-- What `main` has done to the globals when the control threads start.
pub start-vars :
    (env : Env) (a : Addr) (k : ℕ) (w : World Globals)
    → Succeeds env
    → MakesContext env
    → w.vars.num_threads ≡ pos k
    → ((start a env w).1.vars
        ≡ register a 0 k (record (w.vars) { the_context = (env w.calls zmq_ctx_new).ptr }))
      × IsReturned (start a env w).0
unfolding start init_context start_threads launch
start-vars env a k w up new threads = grind (arith, up.nonneg, new, start_commands-vars env a 0 k)

join_all-vars :
    (env : Env) (hs : List Addr) (w : World Globals)
    → ((join_all hs env w).1.vars ≡ w.vars) × ((join_all hs env w).0 ≡ done tt)
unfolding join_all
join_all-vars env [] w = (refl, refl)
join_all-vars env (h ∷ hs) w =
    let rest = join_all-vars env hs (run_call (pthread_join h) env w).1 in ground (arith, rest)

pub finish-code :
    (env : Env) (main_thread : Addr) (handles : List Addr) (w : World Globals)
    → Succeeds env
    → (finish main_thread handles env w).0 ≡ done (exit_code w.vars)
unfolding finish shut_down destroy_context report
finish-code env main_thread handles w up = grind (arith, up.nonneg, join_all-vars env handles w)

init_context-vars :
    (env : Env) (w : World Globals)
    → Succeeds env
    → MakesContext env
    → ((init_context env w).1.vars ≡ with_context env w) × ((init_context env w).0 ≡ done tt)
unfolding init_context
init_context-vars env w up new = grind (arith, up.nonneg, new)

control_sockets-vars :
    (env : Env) (w : World Globals)
    → Succeeds env
    → ((control_sockets env w).1.vars ≡ w.vars) × IsReturned (control_sockets env w).0
unfolding control_sockets
control_sockets-vars env w up = grind (arith, up.nonneg, up.made)

start_threads-vars :
    (env : Env) (a : Addr) (k : ℕ) (w : World Globals)
    → w.vars.num_threads ≡ pos k
    → ((start_threads a env w).1.vars ≡ register a 0 k w.vars)
      × IsReturned (start_threads a env w).0
unfolding start_threads launch
start_threads-vars env a k w threads = grind (arith, start_commands-vars env a 0 k)

pub client_server_start-vars :
    (env : Env) (a : Addr) (k : ℕ) (w : World Globals)
    → Succeeds env
    → MakesContext env
    → w.vars.num_threads ≡ pos k
    → ((client_server_start a env w).1.vars ≡ register a 0 k (with_context env w))
      × IsReturned (client_server_start a env w).0
unfolding client_server_start
client_server_start-vars env a k w up new threads =
    let w1 = (init_context env w).1 in
    let context = init_context-vars env w up new in
    let socks = control_sockets-vars env w1 up in
    let rest =
      start_threads-vars env a k (control_sockets env w1).1 (ground (arith, socks.0, context.0)) in
    ground (arith, context, socks, rest)

pub client_server_finish-code :
    (env : Env) (control_sub control_pub main_thread : Addr) (handles : List Addr)
    (w : World Globals)
    → Succeeds env
    → (client_server_finish control_sub control_pub main_thread handles env w).0
      ≡ done (exit_code w.vars)
unfolding client_server_finish ClientServer.send_command destroy_context report
client_server_finish-code env control_sub control_pub main_thread handles w up =
    grind (arith, up.nonneg, up.whole, join_all-vars env handles w)
