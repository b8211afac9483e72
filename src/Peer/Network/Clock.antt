-- ===== src/Peer/Network/Clock.antt =====
-- The time of a peer of `3186/peer.cpp`: once it is over it stays over, whatever calls are made.
use zmqtests.Base.{◌≡◌, Bool, true, false, not, Option, none, some, List, ◌∷◌, ◌==◌, arith}
use zmqtests.Base.Int.{pos, ltb_ℤ, leb_ℤ}
use zmqtests.Base.Table.{lookup}
use zmqtests.Base.Text.{str_eq}
use zmqtests.Zmq.{Call, ConnectMsg, time, ready_0, ready_1, Env, World}
use zmqtests.Zmq.Monad.{M, skip, vars, set_vars, call, run_call, assert, call_int_func, logged}
use zmqtests.Zmq.Rules.{Keeps, bind-Keeps, then-Keeps, ret-Keeps, when-Keeps, if-Keeps}
use zmqtests.Peer.Table.{
  bytes_key, Peers, strings_fit, connect_command, disconnect_command, welcome_command,
}
use zmqtests.Peer.Issue3186.{
  Setup, is_on, send_connect_msg, leave_when_due, announce, handle_welcome, handle_connect,
  force_cleanup, handle_disconnect, handle_msg, receive_proxy, receive_data, peer_round,
}
use zmqtests.Peer.Issue3186.Loop.{peer_round-Keeps}
use zmqtests.Peer.Network.Rounds.{due}

module _ {G : Type 0} (P : List Call → Type 0)
    (more : (c : Call) (cs : List Call) → P cs → P (c ∷ cs)) (env : Env) where
  abbrev Stays : {A : Type 0} → M G A → Type 0
  Stays m = Keeps (λ (w : World G). P w.calls) env m

  call-Stays : (c : Call) → Stays (call c)
  call-Stays c = record { run = λ w p. (more c w.calls p, tt) }

  run_call-Stays : (c : Call) → Stays (run_call c)
  run_call-Stays c = record { run = λ w p. (more c w.calls p, tt) }

  logged-Stays : (c : Call) → Stays (logged c)
  logged-Stays c = record { run = λ w p. (more c w.calls p, tt) }

  call_int_func-Stays : (c : Call) → Stays (call_int_func c)
  call_int_func-Stays c = record { run = λ w p. (more c w.calls p, tt) }

  vars-Stays : Stays vars
  vars-Stays = record { run = λ w p. (p, tt) }

  skip-Stays : Stays skip
  skip-Stays = record { run = λ w p. (p, tt) }

  set_vars-Stays : (v : G) → Stays (set_vars v)
  set_vars-Stays v = record { run = λ w p. (p, tt) }

  assert-Stays : (b : Bool) → b ≡ true → Stays (assert b)
  assert-Stays b q = rw q (record { run = λ w p. (p, tt) })

  option-Stays :
      {V A : Type 0} (o : Option V) {m : M G A} {k : V → M G A}
      → Stays m
      → ((v : V) → Stays (k v))
      → Stays (elim o [ none ↦ m | some v ↦ k v ])
  option-Stays none h f = h
  option-Stays (some v) h f = f v

module _ (s : Setup) (fit : strings_fit s.the_uuid s.pub_endpoint ≡ true) (P : List Call → Type 0)
    (more : (c : Call) (cs : List Call) → P cs → P (c ∷ cs)) (env : Env) where
  abbrev Still : {A : Type 0} → M Peers A → Type 0
  Still m = Keeps (λ (w : World Peers). P w.calls) env m

  word-Still :
      (command : _) → Still (send_connect_msg s.proxy_pub command s.the_uuid s.pub_endpoint)
  unfolding send_connect_msg
  word-Still command =
      then-Keeps (assert-Stays P more env (strings_fit s.the_uuid s.pub_endpoint) fit)
        (run_call-Stays P more env _)

  leave-Still : Still (leave_when_due s)
  unfolding leave_when_due
  leave-Still =
      if-Keeps (ltb_ℤ (pos 0) s.end_time)
        (bind-Keeps (call-Stays P more env time) λ now.
          if-Keeps (ltb_ℤ s.end_time now.rc)
            (then-Keeps (word-Still disconnect_command) (ret-Keeps (is_on s.immediate_exit)))
            (ret-Keeps false))
        (ret-Keeps false)

  announce-Still : Still (announce s)
  unfolding announce
  announce-Still = bind-Keeps (vars-Stays P more env) λ peers.
      option-Stays P more env (lookup s.the_uuid peers) (word-Still connect_command)
        λ e. skip-Stays P more env

  connect-Still : (m : ConnectMsg) → Still (handle_connect s m)
  unfolding handle_connect
  connect-Still m = bind-Keeps (vars-Stays P more env) λ peers.
      option-Stays P more env (lookup m.uuid peers)
        (then-Keeps (set_vars-Stays P more env _) (
          then-Keeps (logged-Stays P more env _) (
            then-Keeps (when-Keeps (not (str_eq m.uuid s.the_uuid)) (word-Still connect_command))
              (ret-Keeps false))))
        λ e. ret-Keeps false

  disconnect-Still : (m : ConnectMsg) → Still (handle_disconnect s m)
  unfolding handle_disconnect force_cleanup
  disconnect-Still m = bind-Keeps (vars-Stays P more env) λ peers.
      option-Stays P more env (lookup m.uuid peers) (ret-Keeps false) λ e.
        then-Keeps (set_vars-Stays P more env _) (
          then-Keeps (logged-Stays P more env _) (
            then-Keeps (when-Keeps (is_on s.duplicate_disconnect) (logged-Stays P more env _)) (
              then-Keeps (when-Keeps (is_on s.poll_after_disconnect) (logged-Stays P more env _)) (
                if-Keeps (str_eq m.uuid s.the_uuid) (ret-Keeps true) (
                  then-Keeps
                    (when-Keeps (is_on s.send_after_disconnect) (logged-Stays P more env _))
                    (ret-Keeps false))))))

  handle-Still : (m : ConnectMsg) → Still (handle_msg s m)
  unfolding handle_msg handle_welcome
  handle-Still m =
      if-Keeps (m.command == welcome_command)
        (then-Keeps (logged-Stays P more env _) (ret-Keeps false))
        (if-Keeps (m.command == connect_command) (connect-Still m)
          (if-Keeps (m.command == disconnect_command) (disconnect-Still m) (ret-Keeps false)))

  proxy-Still : (ready : List Bool) → Still (receive_proxy s ready)
  unfolding receive_proxy
  proxy-Still ready =
      if-Keeps (ready_0 ready)
        (bind-Keeps (call_int_func-Stays P more env _) λ r. handle-Still r.connect_msg)
        (ret-Keeps false)

  data-Still : (ready : List Bool) → Still (receive_data s ready)
  unfolding receive_data
  data-Still ready = when-Keeps (ready_1 ready) (logged-Stays P more env _)

  peer_round-Still : Still (peer_round s)
  peer_round-Still = peer_round-Keeps (record {
    leave = leave-Still;
    poll = call_int_func-Stays P more env _;
    kick = logged-Stays P more env _;
    greet = announce-Still;
    proxy = proxy-Still;
    feed = data-Still;
  })

-- No call sets the clock of an environment back.
abbrev pub IsSteady : Env → Type 0
IsSteady env = (c : Call) (cs : List Call) → leb_ℤ (env cs time).rc (env (c ∷ cs) time).rc ≡ true

pub due-peer_round :
    (s : Setup)
    → strings_fit s.the_uuid s.pub_endpoint ≡ true
    → (env : Env) → IsSteady env
    → (w : World Peers) → due s env w.calls ≡ true
    → due s env (peer_round s env w).1.calls ≡ true
due-peer_round s fit env steady w h =
    ((peer_round-Still s fit (λ cs. due s env cs ≡ true) (λ c cs l. ground (arith, l, steady c cs))
        env).run
      w h).0
