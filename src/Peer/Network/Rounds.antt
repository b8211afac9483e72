-- ===== src/Peer/Network/Rounds.antt =====
-- What the parts of a round of `3186/peer.cpp` read, publish and leave in the table.
pub mod Whole
use zmqtests.Base.{
  ◌≡◌, ◌≢◌, ◌⊎◌, refl, ap, sym, ◌∙◌, Bool, true, false, not, ◌&&◌, List, [], ◌∷◌, ◌++◌, ◌==◌,
  if◌then◌else◌, Bool-cases, inl, inr, arith,
}
use mathlib.Core.List.{append-nil, append_assoc}
use zmqtests.Base.Int.{pos, ltb_ℤ}
use zmqtests.Base.Text.{str_eq}
use zmqtests.Zmq.{
  ConnectMsg, Call, zmq_recv, zmq_poll, zmq_getsockopt, zmq_events, time, Env, World, Outcome, done,
  ready_0,
}
use zmqtests.Zmq.Monad.{M, ◌>>=◌, ◌>>◌, next, ret, call_int_func, logged, when}
use zmqtests.Peer.Table.{bytes_key, Peers, strings_fit, connect_command}
use zmqtests.Peer.Issue3186.{
  Setup, is_on, announce, leave_when_due, handle_welcome, handle_connect, handle_disconnect,
  handle_msg, receive_proxy, receive_data, poll_round, peer_round,
}
use zmqtests.Peer.Issue3186.Directory.{
  peers_after, is_own_goodbye, handle_msg-vars, handle_msg-leaves,
}
use zmqtests.Peer.Issue3186.Run.{heard, heard-recv, handle_msg-heard}
use zmqtests.Peer.Network.{sent_on, hello, goodbye, known}

-- Whether the time given is over.
abbrev pub due : Setup → Env → List Call → Bool
due s env cs = ltb_ℤ (pos 0) s.end_time && ltb_ℤ s.end_time (env cs time).rc

-- What a peer publishes before it reads a message, and what it answers.
abbrev pub farewell : Setup → Bool → List ConnectMsg
farewell s is_due = if is_due then goodbye s ∷ [] else []

abbrev pub greeting : Setup → Peers → List ConnectMsg
greeting s peers = if known s.the_uuid peers then [] else hello s ∷ []

abbrev pub answers : Setup → ConnectMsg → Peers → Bool
answers s m peers =
    (m.command == connect_command) && not (known m.uuid peers) && not (str_eq m.uuid s.the_uuid)

abbrev pub answer : Setup → ConnectMsg → Peers → List ConnectMsg
answer s m peers = if answers s m peers then hello s ∷ [] else []

pub next-done :
    {G A B : Type 0} (r : Outcome A × World G) (f : A → M G B) (env : Env) (a : A)
    → r.0 ≡ done a
    → next r f env ≡ f a env r.1
next-done (o, w) f env a q = rw q refl

module _ (s : Setup) (fit : strings_fit s.the_uuid s.pub_endpoint ≡ true)
    (apart : s.data_sub ≢ s.proxy_sub) (env : Env) where
  -- A part of a round that publishes `ms` and reads nothing from the proxy.
  pub record Says {A : Type 0} (a : A) (ms : List ConnectMsg) (w : World Peers)
      (r : Outcome A × World Peers) : Type 0 where
    pub fine : r.0 ≡ done a
    pub table : r.1.vars ≡ w.vars
    pub ear : heard env s.proxy_sub r.1.calls ≡ heard env s.proxy_sub w.calls
    pub voice : sent_on s.proxy_pub r.1.calls ≡ sent_on s.proxy_pub w.calls ++ ms

  pub leave_when_due-Says :
      (w : World Peers)
      → Says
          (due s env w.calls && is_on s.immediate_exit)
          (farewell s (due s env w.calls))
          w
          (leave_when_due s env w)
  unfolding leave_when_due heard sent_on
  leave_when_due-Says w = record {
    fine = ground (arith, fit);
    table = ground (arith, fit);
    ear = ground (arith, fit);
    voice = ground (arith, fit, append-nil (sent_on s.proxy_pub w.calls));
  }

  pub announce-Says : (w : World Peers) → Says tt (greeting s w.vars) w (announce s env w)
  unfolding announce heard sent_on
  announce-Says w = record {
    fine = ground (arith, fit);
    table = ground (arith, fit);
    ear = ground (arith, fit);
    voice = ground (arith, fit, append-nil (sent_on s.proxy_pub w.calls));
  }

  pub receive_data-Says :
      (ready : List Bool) (w : World Peers) → Says tt [] w (receive_data s ready env w)
  unfolding receive_data heard sent_on
  receive_data-Says ready w = record {
    fine = ground arith;
    table = ground arith;
    ear = ground arith;
    voice = ground (arith, append-nil (sent_on s.proxy_pub w.calls));
  }

  pub kick-Says :
      (b : Bool) (w : World Peers)
      → Says tt [] w (when b (logged (zmq_getsockopt s.data_pub zmq_events)) env w)
  unfolding heard sent_on
  kick-Says b w = record {
    fine = ground arith;
    table = ground arith;
    ear = ground arith;
    voice = ground (arith, append-nil (sent_on s.proxy_pub w.calls));
  }

  handle_msg-sends :
      (m : ConnectMsg) (w : World Peers)
      → sent_on s.proxy_pub (handle_msg s m env w).1.calls
        ≡ sent_on s.proxy_pub w.calls ++ answer s m w.vars
  unfolding handle_msg handle_welcome handle_connect handle_disconnect sent_on
  handle_msg-sends m w = ground (arith, fit, append-nil (sent_on s.proxy_pub w.calls))

  pub receive_proxy_unready :
      (ready : List Bool) (w : World Peers)
      → ready_0 ready ≡ false
      → receive_proxy s ready env w ≡ (done false, w)
  unfolding receive_proxy
  receive_proxy_unready ready w unset = rw unset refl

  -- What the handling of a message does.
  pub record Handles (m : ConnectMsg) (w : World Peers) (r : Outcome Bool × World Peers)
      : Type 0 where
    pub leaves : r.0 ≡ done (is_own_goodbye s m w.vars)
    pub table : r.1.vars ≡ peers_after m w.vars
    pub ear : heard env s.proxy_sub r.1.calls ≡ heard env s.proxy_sub w.calls ++ m ∷ []
    pub voice : sent_on s.proxy_pub r.1.calls ≡ sent_on s.proxy_pub w.calls ++ answer s m w.vars

  pub receive_proxy-Handles :
      (ready : List Bool) (w : World Peers)
      → ready_0 ready ≡ true
      → Handles (env w.calls (zmq_recv s.proxy_sub)).connect_msg w (receive_proxy s ready env w)
  unfolding receive_proxy sent_on
  receive_proxy-Handles ready w set =
      let m = (env w.calls (zmq_recv s.proxy_sub)).connect_msg in
      let w1 = (call_int_func (zmq_recv s.proxy_sub) env w).1 in
      rw set (record {
        leaves = handle_msg-leaves s fit env m w1;
        table = handle_msg-vars s fit env m w1;
        ear = handle_msg-heard s fit apart env m w1 ∙ heard-recv env s.proxy_sub w.calls;
        voice = handle_msg-sends m w1;
      })
