-- ===== src/Peer/Network/Rounds/Whole.antt =====
-- What a whole round of `3186/peer.cpp` reads, publishes and leaves in the table.
use zmqtests.Base.{
  ◌≡◌, ◌≢◌, ◌⊎◌, refl, ap, sym, ◌∙◌, Bool, true, false, ◌&&◌, List, [], ◌∷◌, ◌++◌, if◌then◌else◌,
  Bool-cases, inl, inr, arith,
}
use mathlib.Core.List.{append-nil, append_assoc}
use zmqtests.Base.Int.{pos}
use zmqtests.Zmq.{
  ConnectMsg, zmq_recv, zmq_poll, zmq_getsockopt, zmq_events, Env, World, Outcome, done, ready_0,
}
use zmqtests.Zmq.Monad.{M, ◌>>=◌, ◌>>◌, next, ret, call_int_func, logged, when}
use zmqtests.Peer.Table.{bytes_key, Peers, strings_fit}
use zmqtests.Peer.Issue3186.{
  Setup, is_on, announce, leave_when_due, receive_proxy, receive_data, poll_round, peer_round,
}
use zmqtests.Peer.Issue3186.Directory.{peers_after, is_own_goodbye}
use zmqtests.Peer.Issue3186.Run.{heard}
use zmqtests.Peer.Network.{sent_on, goodbye}
use zmqtests.Peer.Network.Rounds.{
  due, farewell, greeting, answer, next-done, leave_when_due-Says, announce-Says, receive_data-Says,
  kick-Says, receive_proxy_unready, receive_proxy-Handles, Says,
}

module _ (s : Setup) (fit : strings_fit s.the_uuid s.pub_endpoint ≡ true)
    (apart : s.data_sub ≢ s.proxy_sub) (env : Env) where
  -- The three ways of a round: the peer exits at once when its time is over; it finds no message of
  -- the proxy; or it reads one.
  pub data Round (w : World Peers) (r : Outcome Bool × World Peers) : Type 0 where
    exits :
        due s env w.calls ≡ true
        → r.0 ≡ done true
        → r.1.vars ≡ w.vars
        → heard env s.proxy_sub r.1.calls ≡ heard env s.proxy_sub w.calls
        → sent_on s.proxy_pub r.1.calls ≡ sent_on s.proxy_pub w.calls ++ goodbye s ∷ []
        → Round w r
    waits :
        r.0 ≡ done false
        → r.1.vars ≡ w.vars
        → heard env s.proxy_sub r.1.calls ≡ heard env s.proxy_sub w.calls
        → sent_on s.proxy_pub r.1.calls
          ≡ sent_on s.proxy_pub w.calls ++ (farewell s (due s env w.calls) ++ greeting s w.vars)
        → Round w r
    reads :
        (m : ConnectMsg)
        → r.0 ≡ done (is_own_goodbye s m w.vars)
        → r.1.vars ≡ peers_after m w.vars
        → heard env s.proxy_sub r.1.calls ≡ heard env s.proxy_sub w.calls ++ m ∷ []
        → sent_on s.proxy_pub r.1.calls
          ≡ sent_on s.proxy_pub w.calls
            ++ (farewell s (due s env w.calls) ++ (greeting s w.vars ++ answer s m w.vars))
        → Round w r

  -- The poll of a round, and the round up to it.
  abbrev polled : World Peers → World Peers
  polled w = (call_int_func (zmq_poll (s.proxy_sub ∷ s.data_sub ∷ []) (pos 1000)) env w).1

  abbrev ready_of : World Peers → List Bool
  ready_of w = (env w.calls (zmq_poll (s.proxy_sub ∷ s.data_sub ∷ []) (pos 1000))).ready

  abbrev kicked : World Peers → World Peers
  kicked w =
      (when (is_on s.fix1256) (logged (zmq_getsockopt s.data_pub zmq_events)) env (polled w)).1

  abbrev greeted : World Peers → World Peers
  greeted w = (announce s env (kicked w)).1

  greeted-Says :
      (w : World Peers) → Says s fit apart env tt (greeting s w.vars) w (done tt, greeted w)
  unfolding heard sent_on
  greeted-Says w =
      let k = kick-Says s fit apart env (is_on s.fix1256) (polled w) in
      let a = announce-Says s fit apart env (kicked w) in
      record {
        fine = refl;
        table = a.table ∙ k.table;
        ear = a.ear ∙ k.ear;
        voice =
            a.voice
            ∙ ap (λ v. sent_on s.proxy_pub (kicked w).calls ++ greeting s v) k.table
            ∙ ap (λ l. l ++ greeting s w.vars) (k.voice ∙ append-nil (sent_on s.proxy_pub w.calls));
      }

  -- What is left of a round behind the reading of a message.
  abbrev finish : List Bool → Bool → M Peers Bool
  finish ready leaving = if leaving then ret true else (receive_data s ready >> ret false)

  abbrev behind_greeting : List Bool → M Peers Bool
  behind_greeting ready = receive_proxy s ready >>= finish ready

  poll_round-parts :
      (w : World Peers)
      → poll_round s env w
        ≡ next (receive_proxy s (ready_of w) env (greeted w)) (finish (ready_of w)) env
  unfolding poll_round
  poll_round-parts w =
      next-done
        (when (is_on s.fix1256) (logged (zmq_getsockopt s.data_pub zmq_events)) env (polled w))
        (λ _. announce s >> behind_greeting (ready_of w)) env tt
        (kick-Says s fit apart env (is_on s.fix1256) (polled w)).fine
      ∙ next-done (announce s env (kicked w)) (λ _. behind_greeting (ready_of w)) env tt
          (announce-Says s fit apart env (kicked w)).fine

  finish-Says :
      (ready : List Bool) (leaving : Bool) (w : World Peers)
      → Says s fit apart env leaving [] w (finish ready leaving env w)
  finish-Says ready true w = record {
    fine = refl;
    table = refl;
    ear = refl;
    voice = sym (append-nil (sent_on s.proxy_pub w.calls));
  }
  finish-Says ready false w =
      let d = receive_data-Says s fit apart env ready w in
      let e = next-done (receive_data s ready env w) (λ _. ret false) env tt d.fine in
      record {
        fine = ap (λ r. r.0) e;
        table = ap (λ r. r.1.vars) e ∙ d.table;
        ear = ap (λ r. heard env s.proxy_sub r.1.calls) e ∙ d.ear;
        voice = ap (λ r. sent_on s.proxy_pub r.1.calls) e ∙ d.voice;
      }

  -- A round behind the test of the time, in the world that this has left.
  poll_round-Round :
      (w : World Peers)
      → ((ready_0 (ready_of w) ≡ false)
          × Says s fit apart env false (greeting s w.vars) w (poll_round s env w))
        ⊎ ((m : ConnectMsg) × ((poll_round s env w).0 ≡ done (is_own_goodbye s m w.vars))
            × ((poll_round s env w).1.vars ≡ peers_after m w.vars)
            × (heard env s.proxy_sub (poll_round s env w).1.calls
                ≡ heard env s.proxy_sub w.calls ++ m ∷ [])
            × (sent_on s.proxy_pub (poll_round s env w).1.calls
                ≡ sent_on s.proxy_pub w.calls ++ (greeting s w.vars ++ answer s m w.vars)))
  poll_round-Round w =
      let g = greeted-Says w in
      let parts = poll_round-parts w in
      elim (Bool-cases (ready_0 (ready_of w))) [
        | inl set ↦
            let m = (env (greeted w).calls (zmq_recv s.proxy_sub)).connect_msg in
            let h = receive_proxy-Handles s fit apart env (ready_of w) (greeted w) set in
            let r = receive_proxy s (ready_of w) env (greeted w) in
            let leaving = is_own_goodbye s m (greeted w).vars in
            let f = finish-Says (ready_of w) leaving r.1 in
            let e = parts ∙ next-done r (finish (ready_of w)) env leaving h.leaves in
            inr (
              m,
              ap (λ x. x.0) e ∙ f.fine ∙ ap (λ v. done (is_own_goodbye s m v)) g.table,
              ap (λ x. x.1.vars) e ∙ f.table ∙ h.table ∙ ap (peers_after m) g.table,
              ap (λ x. heard env s.proxy_sub x.1.calls) e
                  ∙ f.ear
                  ∙ h.ear
                  ∙ ap (λ l. l ++ m ∷ []) g.ear,
              ap (λ x. sent_on s.proxy_pub x.1.calls) e
                  ∙ f.voice
                  ∙ append-nil (sent_on s.proxy_pub r.1.calls)
                  ∙ h.voice
                  ∙ ap (λ v. sent_on s.proxy_pub (greeted w).calls ++ answer s m v) g.table
                  ∙ ap (λ l. l ++ answer s m w.vars) g.voice
                  ∙ append_assoc (sent_on s.proxy_pub w.calls) (greeting s w.vars)
                      (answer s m w.vars),
            )
        | inr unset ↦
            let f = finish-Says (ready_of w) false (greeted w) in
            let e =
              parts
              ∙ ap (λ x. next x (finish (ready_of w)) env)
                  (receive_proxy_unready s fit apart env (ready_of w) (greeted w) unset) in
            inl (
              unset,
              record {
                fine = ap (λ x. x.0) e ∙ f.fine;
                table = ap (λ x. x.1.vars) e ∙ f.table ∙ g.table;
                ear = ap (λ x. heard env s.proxy_sub x.1.calls) e ∙ f.ear ∙ g.ear;
                voice =
                    ap (λ x. sent_on s.proxy_pub x.1.calls) e
                    ∙ f.voice
                    ∙ append-nil (sent_on s.proxy_pub (greeted w).calls)
                    ∙ g.voice;
              },
            )
      ]

  pub peer_round-Round : (w : World Peers) → Round w (peer_round s env w)
  unfolding peer_round
  peer_round-Round w =
      let l = leave_when_due-Says s fit apart env w in
      let at_once = due s env w.calls && is_on s.immediate_exit in
      let v = (leave_when_due s env w).1 in
      let e =
        next-done (leave_when_due s env w) (λ d. if d then ret true else poll_round s) env at_once
          l.fine in
      elim (Bool-cases at_once) [
        | inl over ↦
            let q = e ∙ ap (λ b. (if b then ret true else poll_round s) env v) over in
            let is_due : due s env w.calls ≡ true = ground (arith, over) in
            exits is_due (ap (λ x. x.0) q) (ap (λ x. x.1.vars) q ∙ l.table)
              (ap (λ x. heard env s.proxy_sub x.1.calls) q ∙ l.ear)
              (ap (λ x. sent_on s.proxy_pub x.1.calls) q
                ∙ l.voice
                ∙ ap (λ b. sent_on s.proxy_pub w.calls ++ farewell s b) is_due)
        | inr on ↦
            let q = e ∙ ap (λ b. (if b then ret true else poll_round s) env v) on in
            let f = farewell s (due s env w.calls) in
            let sent = sent_on s.proxy_pub w.calls in
            elim (poll_round-Round v) [
              | inl (_, p) ↦
                  waits (ap (λ x. x.0) q ∙ p.fine) (ap (λ x. x.1.vars) q ∙ p.table ∙ l.table)
                    (ap (λ x. heard env s.proxy_sub x.1.calls) q ∙ p.ear ∙ l.ear)
                    (ap (λ x. sent_on s.proxy_pub x.1.calls) q
                      ∙ p.voice
                      ∙ ap (λ t. sent_on s.proxy_pub v.calls ++ greeting s t) l.table
                      ∙ ap (λ t. t ++ greeting s w.vars) l.voice
                      ∙ append_assoc sent f (greeting s w.vars))
              | inr (m, o, t, h, n) ↦
                  let says = λ (peers : Peers). greeting s peers ++ answer s m peers in
                  reads m
                    (ap (λ x. x.0) q ∙ o ∙ ap (λ peers. done (is_own_goodbye s m peers)) l.table)
                    (ap (λ x. x.1.vars) q ∙ t ∙ ap (peers_after m) l.table)
                    (ap (λ x. heard env s.proxy_sub x.1.calls) q ∙ h ∙ ap (λ x. x ++ m ∷ []) l.ear)
                    (ap (λ x. sent_on s.proxy_pub x.1.calls) q
                      ∙ n
                      ∙ ap (λ peers. sent_on s.proxy_pub v.calls ++ says peers) l.table
                      ∙ ap (λ x. x ++ says w.vars) l.voice
                      ∙ append_assoc sent f (says w.vars))
            ]
      ]
