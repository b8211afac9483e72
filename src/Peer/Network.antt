-- ===== src/Peer/Network.antt =====
-- Any number of peers of `3186/peer.cpp` and the proxy of `3186/proxy.c` at work together, from the
-- first subscription to the departures: whole rounds of the peers' loops, the proxy's forwarding and
-- its welcome message.
pub mod Rounds
pub mod Knowledge
pub mod Messages
pub mod Clock
pub mod Turns
pub mod Invariant
pub mod Reached
pub mod Start
pub mod Agreement
pub mod Meeting
use zmqtests.Base.{
  ◌≡◌, ◌⊎◌, Bool, true, false, ◌&&◌, ◌||◌, none, some, List, [], ◌∷◌, ◌++◌, ◌==◌, if◌then◌else◌,
}
use zmqtests.Base.Table.{Key, lookup}
use zmqtests.Base.Text.{Bytes, str_eq}
use zmqtests.Zmq.{Addr, Call, ConnectMsg, connect, zmq_send, Env, World, Outcome, done, aborted}
use zmqtests.Peer.Table.{bytes_key, Peers, connect_command, disconnect_command, welcome_command}
use zmqtests.Peer.Proxy.Welcome.{welcome}
use zmqtests.Peer.Issue3186.{Setup, peer_round}
use zmqtests.Peer.Issue3186.Run.{heard}

-- The messages sent on a socket, in their order.
unfoldable pub sent_on : Addr → List Call → List ConnectMsg
sent_on p [] = []
sent_on p (zmq_send q (connect m) f ∷ cs) =
    let rest = sent_on p cs in if q == p then rest ++ m ∷ [] else rest
sent_on p (_ ∷ cs) = sent_on p cs

-- The connect message of a peer, and its disconnect message.
abbrev pub hello : Setup → ConnectMsg
hello s = record { command = connect_command; uuid = s.the_uuid; endpoint = s.pub_endpoint }

abbrev pub goodbye : Setup → ConnectMsg
goodbye s = record { command = disconnect_command; uuid = s.the_uuid; endpoint = s.pub_endpoint }

abbrev pub known : Bytes → Peers → Bool
known u peers = elim (lookup u peers) [ none ↦ false | some e ↦ true ]

-- Whether a peer has published a disconnect message.
unfoldable pub takes_leave : List ConnectMsg → Bool
takes_leave [] = false
takes_leave (m ∷ ms) = (m.command == disconnect_command) || takes_leave ms

unfoldable pub has_welcome : List ConnectMsg → Bool
has_welcome [] = false
has_welcome (m ∷ ms) = (m.command == welcome_command) || has_welcome ms

abbrev pub has_left : Outcome Bool → Bool
has_left (done b) = b
has_left aborted = false

-- `joined` tells whose subscription the proxy knows, `welcomed` who has asked for a connection to it,
-- `linked` whose connection stands, and `gone` who has left its loop.
pub record Network (A : Type 0) : Type 0 where
  pub worlds : A → World Peers
  pub joined : A → Bool
  pub welcomed : A → Bool
  pub linked : A → Bool
  pub gone : A → Bool
  pub inbox : A → List ConnectMsg

abbrev pub put : {A B : Type 0} ⦃key : Key A⦄ → A → B → (A → B) → A → B
put ⦃key⦄ i x f k = if key.same k i then x else f k

-- A peer `i` has published `ms`, which the proxy forwards to all that have joined; `box` is what
-- is left of the messages on their way to it.
abbrev pub after_turn :
    {A : Type 0} ⦃key : Key A⦄
    → A
    → World Peers
    → Bool
    → Bool
    → List ConnectMsg
    → List ConnectMsg
    → Network A
    → Network A
after_turn i w asks leaves box ms c = record {
  worlds = put i w c.worlds;
  joined = c.joined;
  welcomed = put i asks c.welcomed;
  linked = c.linked;
  gone = put i leaves c.gone;
  inbox = λ k. put i box c.inbox k ++ (if c.joined k && c.linked i then ms else []);
}

module _ {A : Type 0} ⦃key : Key A⦄ (setups : A → Setup) (envs : A → Env) (lingers : A → Bool)
    (proxy_endpoint proxy_uuid : Bytes) where
  -- A peer that subscribes is sent the welcome message. A peer that has not left makes a round of its
  -- loop: it reads `got`, which is the next message on its way to it or none, and publishes `ms`.
  -- With the welcome message it asks for a connection to the proxy. What it publishes until the
  -- connection stands is lost. A peer that has left its loop closes its sockets: unless it lingers,
  -- whatever it has published can still be lost on its way to any peer.
  pub data Step : Network A → Network A → Type 0 where
    join :
        (i : A) (c : Network A)
        → c.joined i ≡ false
        → Step c (record c {
          joined = put i true c.joined;
          inbox = put i (welcome proxy_uuid proxy_endpoint ∷ []) c.inbox;
        })
    link :
        (i : A) (c : Network A)
        → c.welcomed i ≡ true
        → Step c (record c { linked = put i true c.linked })
    round :
        (i : A) (got ms box : List ConnectMsg) (c : Network A)
        → c.gone i ≡ false
        → c.inbox i ≡ got ++ box
        → heard (envs i) (setups i).proxy_sub (peer_round (setups i) (envs i) (c.worlds i)).1.calls
          ≡ heard (envs i) (setups i).proxy_sub (c.worlds i).calls ++ got
        → sent_on (setups i).proxy_pub (peer_round (setups i) (envs i) (c.worlds i)).1.calls
          ≡ sent_on (setups i).proxy_pub (c.worlds i).calls ++ ms
        → Step c (
            after_turn i
              (peer_round (setups i) (envs i) (c.worlds i)).1
              (c.welcomed i || has_welcome got)
              (has_left (peer_round (setups i) (envs i) (c.worlds i)).0)
              box
              ms
              c)
    lose :
        (i k : A) (m : ConnectMsg) (before behind : List ConnectMsg) (c : Network A)
        → c.gone i ≡ true
        → lingers i ≡ false
        → (m ≡ hello (setups i)) ⊎ (m ≡ goodbye (setups i))
        → c.inbox k ≡ before ++ m ∷ behind
        → Step c (record c { inbox = put k (before ++ behind) c.inbox })

  pub data Reach (from : Network A) : Network A → Type 0 where
    here : Reach from from
    one_more : {c d : Network A} → Reach from c → Step c d → Reach from d
