-- ===== src/Peer/Issue3186/Balance.antt =====
-- The connections of the data socket over whole runs of the loop of `3186/peer.cpp`.
use zmqtests.Base.{ℕ, ◌≡◌, ◌≢◌, refl, Bool, true, false, List, [], ◌∷◌, Bool-cases, inl, inr, arith}
use zmqtests.Base.Int.{pos}
use zmqtests.Base.Text.{Bytes}
use zmqtests.Zmq.{
  Addr, zmq_recv, zmq_poll, zmq_getsockopt, zmq_events, Env, World, Outcome, ready_0,
}
use zmqtests.Zmq.Monad.{M, call_int_func, logged}
use zmqtests.Zmq.Rules.{IsDone, Keeps}
use zmqtests.Peer.Table.{Peers, strings_fit}
use zmqtests.Peer.Issue3186.{
  Setup, is_on, announce, leave_when_due, receive_proxy, receive_data, peer_loop,
}
use zmqtests.Peer.Issue3186.Links.{opened, closed, IsLinked, Names, handle_msg-Linked}
use zmqtests.Peer.Issue3186.Loop.{PartsKeep, peer_loop-Keeps}

-- A part that leaves the table and the connections of the data socket alone.
record Still {A : Type 0} (d : Addr) (w : World Peers) (o : Outcome A) (w' : World Peers)
    : Type 0 where
  table : w'.vars ≡ w.vars
  opens : (e : Bytes) → opened d e w'.calls ≡ opened d e w.calls
  closes : (e : Bytes) → closed d e w'.calls ≡ closed d e w.calls
  fine : IsDone o

module _ (s : Setup) (fit : strings_fit s.the_uuid s.pub_endpoint ≡ true)
    (apart : s.proxy_pub ≢ s.data_sub) (single : is_on s.duplicate_disconnect ≡ false) (env : Env)
    (endpoint_of : Bytes → Bytes) (names : Names env s.proxy_sub endpoint_of) where
  abbrev Linked : World Peers → Type 0
  Linked = IsLinked s.data_sub endpoint_of

  Still-Keeps :
      {A : Type 0} {m : M Peers A}
      → ((w : World Peers) → Still s.data_sub w (m env w).0 (m env w).1)
      → Keeps Linked env m
  Still-Keeps {m} q = record {
    run = λ w l. (
      record {
        distinct = rw ((q w).table) l.distinct;
        named = rw ((q w).table) l.named;
        balance = λ e. rw ((q w).table, (q w).opens e, (q w).closes e) (l.balance e);
      },
      (q w).fine,
    );
  }

  leave-Still :
      (w : World Peers) → Still s.data_sub w (leave_when_due s env w).0 (leave_when_due s env w).1
  unfolding leave_when_due opened closed
  leave-Still w = record {
    table = ground (arith, fit);
    opens = λ e. ground (arith, fit);
    closes = λ e. ground (arith, fit);
    fine = ground (arith, fit);
  }

  announce-Still : (w : World Peers) → Still s.data_sub w (announce s env w).0 (announce s env w).1
  unfolding announce opened closed
  announce-Still w = record {
    table = ground (arith, fit);
    opens = λ e. ground (arith, fit);
    closes = λ e. ground (arith, fit);
    fine = ground (arith, fit);
  }

  data-Still :
      (ready : List Bool) (w : World Peers)
      → Still s.data_sub w (receive_data s ready env w).0 (receive_data s ready env w).1
  unfolding receive_data opened closed
  data-Still ready w = record {
    table = ground arith;
    opens = λ e. ground arith;
    closes = λ e. ground arith;
    fine = ground arith;
  }

  poll-Still :
      Keeps Linked env (call_int_func (zmq_poll (s.proxy_sub ∷ s.data_sub ∷ []) (pos 1000)))
  unfolding opened closed
  poll-Still =
      Still-Keeps λ w. record { table = refl; opens = λ e. refl; closes = λ e. refl; fine = tt }

  kick-Still : Keeps Linked env (logged (zmq_getsockopt s.data_pub zmq_events))
  unfolding opened closed
  kick-Still =
      Still-Keeps λ w. record { table = refl; opens = λ e. refl; closes = λ e. refl; fine = tt }

  proxy_run :
      (ready : List Bool) (w : World Peers)
      → Linked w
      → Linked (receive_proxy s ready env w).1 × IsDone (receive_proxy s ready env w).0
  unfolding receive_proxy opened closed
  proxy_run ready w l = elim (Bool-cases (ready_0 ready)) [
    | inl set ↦ rw set (
        handle_msg-Linked s fit apart single env endpoint_of
          (env w.calls (zmq_recv s.proxy_sub)).connect_msg
          (call_int_func (zmq_recv s.proxy_sub) env w).1 (names w.calls)
          (record { distinct = l.distinct; named = l.named; balance = l.balance }))
    | inr unset ↦ rw unset (l, tt)
  ]

  parts : PartsKeep s Linked env
  parts = record {
    leave = Still-Keeps leave-Still;
    poll = poll-Still;
    kick = kick-Still;
    greet = Still-Keeps announce-Still;
    proxy = λ ready. record { run = proxy_run ready };
    feed = λ ready. Still-Keeps (data-Still ready);
  }

-- However many rounds the loop makes and whatever the calls reply: every endpoint has been
-- connected to exactly as often as it was disconnected from, and once more for each peer of the
-- table at this endpoint, if that was so before. The conditions: `-duplicate-disconnect` is off,
-- every message read from the proxy names the endpoint of its sender, the proxy's PUB socket is
-- not the data socket, and the peer's own strings fit a `connectMsg`.
pub peer_loop-IsLinked :
    (s : Setup) (env : Env) (endpoint_of : Bytes → Bytes)
    → strings_fit s.the_uuid s.pub_endpoint ≡ true
    → s.proxy_pub ≢ s.data_sub
    → is_on s.duplicate_disconnect ≡ false
    → Names env s.proxy_sub endpoint_of
    → (fuel : ℕ) (w : World Peers) → IsLinked s.data_sub endpoint_of w
    → IsLinked s.data_sub endpoint_of (peer_loop s fuel env w).1
peer_loop-IsLinked s env endpoint_of fit apart single names fuel w l =
    ((peer_loop-Keeps (parts s fit apart single env endpoint_of names) fuel).run w l).0
