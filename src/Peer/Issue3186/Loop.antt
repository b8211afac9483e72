-- ===== src/Peer/Issue3186/Loop.antt =====
-- The loop of `3186/peer.cpp` keeps what its parts keep.
use zmqtests.Base.{ℕ, zero, suc, Bool, true, false, List, [], ◌∷◌}
use zmqtests.Base.Int.{pos}
use zmqtests.Zmq.{zmq_poll, zmq_getsockopt, zmq_events, Env, World}
use zmqtests.Zmq.Monad.{call_int_func, logged}
use zmqtests.Zmq.Rules.{Keeps, bind-Keeps, then-Keeps, ret-Keeps, when-Keeps, if-Keeps}
use zmqtests.Peer.Table.{Peers}
use zmqtests.Peer.Issue3186.{
  Setup, is_on, announce, leave_when_due, receive_proxy, receive_data, poll_round, peer_round,
  peer_loop,
}

-- The parts of a round.
pub record PartsKeep (s : Setup) (P : World Peers → Type 0) (env : Env) : Type 0 where
  pub leave : Keeps P env (leave_when_due s)
  pub poll : Keeps P env (call_int_func (zmq_poll (s.proxy_sub ∷ s.data_sub ∷ []) (pos 1000)))
  pub kick : Keeps P env (logged (zmq_getsockopt s.data_pub zmq_events))
  pub greet : Keeps P env (announce s)
  pub proxy : (ready : List Bool) → Keeps P env (receive_proxy s ready)
  pub feed : (ready : List Bool) → Keeps P env (receive_data s ready)

module _ {s : Setup} {P : World Peers → Type 0} {env : Env} (parts : PartsKeep s P env) where
  poll_round-Keeps : Keeps P env (poll_round s)
  unfolding poll_round
  poll_round-Keeps = bind-Keeps parts.poll λ p.
      then-Keeps (when-Keeps (is_on s.fix1256) parts.kick) (
        then-Keeps parts.greet (
          bind-Keeps (parts.proxy p.ready) λ leaving.
            if-Keeps leaving (ret-Keeps true) (then-Keeps (parts.feed p.ready) (ret-Keeps false))))

  pub peer_round-Keeps : Keeps P env (peer_round s)
  unfolding peer_round
  peer_round-Keeps = bind-Keeps parts.leave λ due. if-Keeps due (ret-Keeps true) poll_round-Keeps

  pub peer_loop-Keeps : (fuel : ℕ) → Keeps P env (peer_loop s fuel)
  unfolding peer_loop
  peer_loop-Keeps zero = ret-Keeps false
  peer_loop-Keeps (suc fuel) =
      bind-Keeps peer_round-Keeps
        λ leaving. if-Keeps leaving (ret-Keeps true) (peer_loop-Keeps fuel)
