-- ===== src/Threads/Delivery/Whole.antt =====
-- `sendCommand` of the four programs where calls may fail.
use zmqtests.Base.{◌≡◌, List, [], ◌∷◌, ◌++◌, if◌then◌else◌, arith}
use zmqtests.Base.Int.{pos, eqb_ℤ}
use zmqtests.Zmq.{Addr, ControlMsg, control, Call, zmq_send, Env, World, done}
use zmqtests.Zmq.Monad.{M}
use zmqtests.Threads.Globals.{Globals, control_msg_size}
use zmqtests.Threads.PubSub
use zmqtests.Threads.PushPull
use zmqtests.Threads.Pairs
use zmqtests.Threads.ClientServer

-- The control messages that were taken whole, in their order.
unfoldable pub taken : Env → List Call → List ControlMsg
taken env [] = []
taken env (zmq_send s (control m) f ∷ cs) =
    let rest = taken env cs in
    if eqb_ℤ (env cs (zmq_send s (control m) f)).rc (pos control_msg_size)
    then rest ++ m ∷ []
    else rest
taken env (_ ∷ cs) = taken env cs

-- `sendCommand` of a program.
pub data IsSendCommand : (ControlMsg → M Globals (Unit {0})) → Type 0 where
  pub_sub : IsSendCommand PubSub.send_command
  push_pull : IsSendCommand PushPull.send_command
  pairs : IsSendCommand Pairs.send_command
  client_server :
      (control_pub control_sub : Addr)
      → IsSendCommand (ClientServer.send_command control_pub control_sub)

pub_sub-taken :
    (env : Env) (m : ControlMsg) (w : World Globals)
    → (PubSub.send_command m env w).0 ≡ done tt
    → taken env (PubSub.send_command m env w).1.calls ≡ taken env w.calls ++ m ∷ []
unfolding PubSub.send_command taken
pub_sub-taken env m w h = ground arith

push_pull-taken :
    (env : Env) (m : ControlMsg) (w : World Globals)
    → (PushPull.send_command m env w).0 ≡ done tt
    → taken env (PushPull.send_command m env w).1.calls ≡ taken env w.calls ++ m ∷ []
unfolding PushPull.send_command taken
push_pull-taken env m w h = ground arith

pairs-taken :
    (env : Env) (m : ControlMsg) (w : World Globals)
    → (Pairs.send_command m env w).0 ≡ done tt
    → taken env (Pairs.send_command m env w).1.calls ≡ taken env w.calls ++ m ∷ []
unfolding Pairs.send_command taken
pairs-taken env m w h = ground arith

client_server-taken :
    (p q : Addr) (env : Env) (m : ControlMsg) (w : World Globals)
    → (ClientServer.send_command p q m env w).0 ≡ done tt
    → taken env (ClientServer.send_command p q m env w).1.calls ≡ taken env w.calls ++ m ∷ []
unfolding ClientServer.send_command taken
client_server-taken p q env m w h = ground arith

-- Whatever the calls of `sendCommand` reply, in each of the four programs: if it returns, then
-- `zmq_send` has taken its message whole, exactly once and last among the messages taken. So a
-- message is never refused or cut without the program coming to an end.
pub send_command-taken :
    (f : ControlMsg → M Globals (Unit {0}))
    → IsSendCommand f
    → (env : Env) (m : ControlMsg) (w : World Globals) → (f m env w).0 ≡ done tt
    → taken env (f m env w).1.calls ≡ taken env w.calls ++ m ∷ []
send_command-taken f pub_sub = pub_sub-taken
send_command-taken f push_pull = push_pull-taken
send_command-taken f pairs = pairs-taken
send_command-taken f (client_server p q) = client_server-taken p q
