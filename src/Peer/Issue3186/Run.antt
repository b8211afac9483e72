-- ===== src/Peer/Issue3186/Run.antt =====
-- Whole runs of the loop of `3186/peer.cpp`: the table after any number of rounds.
use zmqtests.Base.{
  ℕ, ◌≡◌, ◌≢◌, ap, ◌∙◌, Bool, true, List, [], ◌∷◌, ◌++◌, ◌==◌, if◌then◌else◌, Bool-cases, inl, inr,
  sym, arith,
}
use zmqtests.Base.Table.{lookup}
use zmqtests.Base.Int.{pos}
use zmqtests.Base.Text.{Bytes}
use zmqtests.Zmq.{
  Addr, ConnectMsg, Call, zmq_recv, zmq_poll, zmq_getsockopt, zmq_events, Env, World, Outcome,
  ready_0,
}
use zmqtests.Zmq.Monad.{M, call_int_func, logged}
use zmqtests.Zmq.Rules.{IsDone, Keeps}
use zmqtests.Peer.Table.{bytes_key, Peers, strings_fit}
use zmqtests.Peer.Issue3186.{
  Setup, handle_welcome, handle_connect, handle_disconnect, handle_msg, announce, leave_when_due,
  receive_proxy, receive_data, peer_loop,
}
use zmqtests.Peer.Issue3186.Loop.{PartsKeep, peer_loop-Keeps}
use zmqtests.Peer.Issue3186.Directory.{track, track_from, track_from-append, handle_msg-refines}

-- The messages read from the proxy, in the order of arrival. The code handles what the buffer
-- holds also where `zmq_recv` has failed.
abbrev pub add_heard : Env → Addr → Call → List Call → List ConnectMsg → List ConnectMsg
add_heard env p (zmq_recv q) cs ms =
    if q == p then ms ++ (env cs (zmq_recv q)).connect_msg ∷ [] else ms
add_heard env p c cs ms = ms

unfoldable pub heard : Env → Addr → List Call → List ConnectMsg
heard env p [] = []
heard env p (c ∷ cs) = add_heard env p c cs (heard env p cs)

pub heard-recv :
    (env : Env) (p : Addr) (cs : List Call)
    → heard env p (zmq_recv p ∷ cs) ≡ heard env p cs ++ (env cs (zmq_recv p)).connect_msg ∷ []
unfolding heard
heard-recv env p cs = ground arith

-- A part of the loop that leaves the table alone and reads nothing from the proxy.
record Quiet {A : Type 0} (env : Env) (p : Addr) (w : World Peers) (o : Outcome A)
    (w' : World Peers) : Type 0 where
  table : w'.vars ≡ w.vars
  ear : heard env p w'.calls ≡ heard env p w.calls
  fine : IsDone o

-- For every uuid the table says what the messages heard so far say, from the table `start` on.
abbrev pub IsDirectory : Env → Addr → Peers → World Peers → Type 0
IsDirectory env p start w =
    (u : Bytes) → lookup u w.vars ≡ track_from u (lookup u start) (heard env p w.calls)

Quiet-IsDirectory :
    {A : Type 0} (env : Env) (p : Addr) (start : Peers) (w w' : World Peers) (o : Outcome A)
    → Quiet env p w o w'
    → IsDirectory env p start w
    → IsDirectory env p start w'
Quiet-IsDirectory env p start w w' o q d u = rw (q.table, q.ear) (d u)

module _ (s : Setup) (fit : strings_fit s.the_uuid s.pub_endpoint ≡ true)
    (apart : s.data_sub ≢ s.proxy_sub) (env : Env) where
  leave_when_due-Quiet :
      (w : World Peers)
      → Quiet env s.proxy_sub w (leave_when_due s env w).0 (leave_when_due s env w).1
  unfolding leave_when_due heard
  leave_when_due-Quiet w = record {
    table = ground (arith, fit);
    ear = ground (arith, fit);
    fine = ground (arith, fit);
  }

  announce-Quiet :
      (w : World Peers) → Quiet env s.proxy_sub w (announce s env w).0 (announce s env w).1
  unfolding announce heard
  announce-Quiet w = record {
    table = ground (arith, fit);
    ear = ground (arith, fit);
    fine = ground (arith, fit);
  }

  receive_data-Quiet :
      (ready : List Bool) (w : World Peers)
      → Quiet env s.proxy_sub w (receive_data s ready env w).0 (receive_data s ready env w).1
  unfolding receive_data heard
  receive_data-Quiet ready w = record {
    table = ground arith;
    ear = ground arith;
    fine = ground arith;
  }

  handle_connect-heard :
      (msg : ConnectMsg) (w : World Peers)
      → heard env s.proxy_sub (handle_connect s msg env w).1.calls ≡ heard env s.proxy_sub w.calls
  unfolding handle_connect heard
  handle_connect-heard msg w = ground (arith, fit)

  handle_disconnect-heard :
      (msg : ConnectMsg) (w : World Peers)
      → heard env s.proxy_sub (handle_disconnect s msg env w).1.calls
        ≡ heard env s.proxy_sub w.calls
  unfolding handle_disconnect heard
  handle_disconnect-heard msg w = ground arith

  pub handle_msg-heard :
      (msg : ConnectMsg) (w : World Peers)
      → heard env s.proxy_sub (handle_msg s msg env w).1.calls ≡ heard env s.proxy_sub w.calls
  unfolding handle_msg handle_welcome heard
  handle_msg-heard msg w = ground (arith, handle_connect-heard msg w, handle_disconnect-heard msg w)

  module _ (start : Peers) where
    receive_proxy-IsDirectory :
        (ready : List Bool) (w : World Peers)
        → IsDirectory env s.proxy_sub start w
        → IsDirectory env s.proxy_sub start (receive_proxy s ready env w).1
          × IsDone (receive_proxy s ready env w).0
    unfolding receive_proxy
    receive_proxy-IsDirectory ready w d = elim (Bool-cases (ready_0 ready)) [
      | inl set ↦
          let w1 = (call_int_func (zmq_recv s.proxy_sub) env w).1 in
          let m = (env w.calls (zmq_recv s.proxy_sub)).connect_msg in
          let step = handle_msg-refines s env fit m w1 in
          let ear = handle_msg-heard m w1 ∙ heard-recv env s.proxy_sub w.calls in
          rw set (
            λ u.
                step.0 u
                ∙ ap (track u m) (d u)
                ∙ sym (track_from-append u (lookup u start) (heard env s.proxy_sub w.calls) m)
                ∙ ap (track_from u (lookup u start)) (sym ear),
            rw (step.1) tt,
          )
      | inr unset ↦ rw unset (d, tt)
    ]

    abbrev Tracks : {A : Type 0} → M Peers A → Type 0
    Tracks m = Keeps (IsDirectory env s.proxy_sub start) env m

    Quiet-Tracks :
        {A : Type 0} {m : M Peers A}
        → ((w : World Peers) → Quiet env s.proxy_sub w (m env w).0 (m env w).1)
        → Tracks m
    Quiet-Tracks q = record {
      run = λ w d. (Quiet-IsDirectory env s.proxy_sub start w _ _ (q w) d, (q w).fine);
    }

    poll-Tracks : Tracks (call_int_func (zmq_poll (s.proxy_sub ∷ s.data_sub ∷ []) (pos 1000)))
    unfolding heard
    poll-Tracks = record { run = λ w d. (d, tt) }

    kick-Tracks : Tracks (logged (zmq_getsockopt s.data_pub zmq_events))
    unfolding heard
    kick-Tracks = record { run = λ w d. (d, tt) }

    parts : PartsKeep s (IsDirectory env s.proxy_sub start) env
    parts = record {
      leave = Quiet-Tracks leave_when_due-Quiet;
      poll = poll-Tracks;
      kick = kick-Tracks;
      greet = Quiet-Tracks announce-Quiet;
      proxy = λ ready. record { run = receive_proxy-IsDirectory ready };
      feed = λ ready. Quiet-Tracks (receive_data-Quiet ready);
    }

-- However many rounds the loop makes and whatever the calls reply: the loop does not abort, and the
-- table says of every uuid what the messages read from the proxy about that uuid say, in their
-- order, from the table that the loop began with. The conditions: nothing was read from the proxy
-- before, the data socket is not the proxy's, the peer's own strings fit a `connectMsg`, and so do
-- the strings of every message that `zmq_recv` writes, so that no text is read past its array.
pub peer_loop-tracks :
    (s : Setup) (env : Env)
    → strings_fit s.the_uuid s.pub_endpoint ≡ true
    → ((cs : List Call)
        → strings_fit
            (env cs (zmq_recv s.proxy_sub)).connect_msg.uuid
            (env cs (zmq_recv s.proxy_sub)).connect_msg.endpoint
          ≡ true)
    → s.data_sub ≢ s.proxy_sub
    → (fuel : ℕ) (w : World Peers) → heard env s.proxy_sub w.calls ≡ []
    → IsDone (peer_loop s fuel env w).0
      × ((u : Bytes)
          → lookup u (peer_loop s fuel env w).1.vars
            ≡ track_from u
                (lookup u w.vars)
                (heard env s.proxy_sub (peer_loop s fuel env w).1.calls))
unfolding track_from
peer_loop-tracks s env fit closed apart fuel w silent =
    let r = (peer_loop-Keeps (parts s fit apart env w.vars) fuel).run w (λ u. rw silent) in
    (r.1, r.0)
