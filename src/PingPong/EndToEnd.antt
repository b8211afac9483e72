-- ===== src/PingPong/EndToEnd.antt =====
-- `main` of `pingpong/ping.cpp` and of `pingpong/pong.cpp`, connected with each other.
use zmqtests.Base.{ℕ, zero, suc, ◌≤◌, ◌≡◌, refl, ap, ◌∙◌, true, [], length, drop, arith}
use zmqtests.Base.Int.{pos}
use zmqtests.Base.Text.{bytes, str_eq_refl}
use zmqtests.Zmq.{Addr, zmq_ctx_new, zmq_recv, Env, World, done}
use zmqtests.Zmq.Monad.{call}
use zmqtests.Params.PingPong.{Options}
use zmqtests.PingPong.Sockets.{Sockets, get_micros, tested_socket, control_sockets, close_all}
use zmqtests.PingPong.Ping.{request_msg, ping_loop, open_ping}
use zmqtests.PingPong.Pong.{read_call, pong_loop, open_pong}
use zmqtests.PingPong.Session.{
  published, reads, Hears, answers, requests, AllRequests, pong_loop-run, ping_loop-run,
}
use zmqtests.PingPong.Ping
use zmqtests.PingPong.Pong

module _ (env : Env) (w : World (Unit {0})) (p : Addr) where
  control_sockets-quiet :
      (context : Addr)
      → (published p (control_sockets context env w).1.calls ≡ published p w.calls)
        × (reads p (control_sockets context env w).1.calls ≡ reads p w.calls)
  unfolding control_sockets tested_socket published reads
  control_sockets-quiet context = grind arith

module _ (o : Options) (env : Env) (w : World (Unit {0})) (p : Addr) where
  -- The control sockets, which are made after the context.
  controls-quiet :
      (published p
          (control_sockets (env w.calls zmq_ctx_new).ptr env (call zmq_ctx_new env w).1).1.calls
        ≡ published p w.calls)
      × (reads p
            (control_sockets (env w.calls zmq_ctx_new).ptr env (call zmq_ctx_new env w).1).1.calls
          ≡ reads p w.calls)
  unfolding published reads
  controls-quiet =
      control_sockets-quiet env (call zmq_ctx_new env w).1 p (env w.calls zmq_ctx_new).ptr

  open_ping-quiet :
      (published p (open_ping o env w).1.calls ≡ published p w.calls)
      × (reads p (open_ping o env w).1.calls ≡ reads p w.calls)
  unfolding open_ping tested_socket published reads
  open_ping-quiet = grind (arith, controls-quiet)

  open_pong-quiet :
      (published p (open_pong o env w).1.calls ≡ published p w.calls)
      × (reads p (open_pong o env w).1.calls ≡ reads p w.calls)
  unfolding open_pong published reads
  open_pong-quiet = grind (arith, controls-quiet)

  close_all-quiet :
      (s : Sockets)
      → ((close_all s env w).0 ≡ done tt)
        × (published p (close_all s env w).1.calls ≡ published p w.calls)
  unfolding close_all published
  close_all-quiet s = grind arith

length-requests : (n : ℕ) → length (requests n) ≡ n
unfolding requests
length-requests zero = refl
length-requests (suc n) = ap suc (length-requests n)

requests-AllRequests : (n : ℕ) → AllRequests (requests n)
unfolding requests
requests-AllRequests zero = tt
requests-AllRequests (suc n) = (str_eq_refl (bytes "request"), requests-AllRequests n)

pong_main-answers :
    (o : Options) (env : Env) (w : World (Unit {0})) (s : Sockets) (d : ℕ)
    → w.calls ≡ []
    → (open_pong o env w).0 ≡ done s
    → Hears env s.subscriber (read_call o s.subscriber) (requests d)
    → ((Pong.main o d env w).0 ≡ done tt)
      × (published s.publisher (Pong.main o d env w).1.calls ≡ answers (requests d))
unfolding Pong.main published reads
pong_main-answers o env w s d fresh opened h =
    let w1 = (open_pong o env w).1 in
    let unsent = (open_pong-quiet o env w s.publisher).0 in
    let unread = (open_pong-quiet o env w s.subscriber).1 in
    let run =
      pong_loop-run o s env (requests d) h w1 (requests d)
        (ap (λ n. drop n (requests d)) (unread ∙ ap (reads s.subscriber) fresh))
        (requests-AllRequests d) in
    (
      ground (arith, opened, run.0, length-requests d),
      ground (arith, opened, run.1, unsent, fresh, length-requests d),
    )

ping_main-ends :
    (o : Options) (env : Env) (w : World (Unit {0})) (s : Sockets) (d fuel : ℕ)
    → w.calls ≡ []
    → d ≤ fuel
    → o.num_requests ≡ pos (suc d)
    → (open_ping o env w).0 ≡ done s
    → Hears env s.subscriber (zmq_recv s.subscriber) (answers (requests d))
    → ((Ping.main o (suc fuel) env w).0 ≡ done true)
      × (published s.publisher (Ping.main o (suc fuel) env w).1.calls ≡ requests d)
unfolding Ping.main get_micros published reads
ping_main-ends o env w s d fuel fresh p asked opened h =
    let w1 = (open_ping o env w).1 in
    let unsent = (open_ping-quiet o env w s.publisher).0 in
    let unread = (open_ping-quiet o env w s.subscriber).1 in
    let w2 = (get_micros env w1).1 in
    let run =
      ping_loop-run o s env (answers (requests d)) h w2 0 fuel (requests d)
        (ap (λ n. drop n (answers (requests d))) (unread ∙ ap (reads s.subscriber) fresh))
        (ground (arith, asked, length-requests d)) (ground (arith, length-requests d, p)) in
    let w3 = (get_micros env (ping_loop o s (suc fuel) 0 env w2).1).1 in
    let closed = close_all-quiet o env w3 s.publisher s in
    (
      ground (arith, opened, asked, run.0, closed.0),
      ground (arith, opened, asked, run, closed, unsent, fresh, length-requests d),
    )

-- `main` of `ping.cpp` and `main` of `pong.cpp`, each with the other's messages: pong reads the
-- requests, ping reads what pong has sent, in its order, and the sockets of both have been made.
-- Then pong answers all of them and no `assert` of it fails, and ping sends one request fewer than
-- `numRequests` and comes to its end, with `true`. The conditions: `numRequests` is at least 1, the
-- fuel of ping is at least `numRequests`, and no call has been made before.
pub main-eq-requests :
    (o o' : Options) (env env' : Env) (w w' : World (Unit {0})) (s s' : Sockets) (d fuel : ℕ)
    → w.calls ≡ []
    → w'.calls ≡ []
    → d ≤ fuel
    → o.num_requests ≡ pos (suc d)
    → (open_ping o env w).0 ≡ done s
    → (open_pong o' env' w').0 ≡ done s'
    → Hears env' s'.subscriber (read_call o' s'.subscriber) (requests d)
    → Hears env s.subscriber
        (zmq_recv s.subscriber)
        (published s'.publisher (Pong.main o' d env' w').1.calls)
    → ((Pong.main o' d env' w').0 ≡ done tt)
      × ((Ping.main o (suc fuel) env w).0 ≡ done true)
      × (published s.publisher (Ping.main o (suc fuel) env w).1.calls ≡ requests d)
main-eq-requests o o' env env' w w' s s' d fuel fresh fresh' p asked opened opened' heard' heard =
    let pong = pong_main-answers o' env' w' s' d fresh' opened' heard' in
    let ping = ping_main-ends o env w s d fuel fresh p asked opened (rw (pong.1) at heard) in
    (pong.0, ping.0, ping.1)
