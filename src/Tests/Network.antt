-- ===== src/Tests/Network.antt =====
-- Two peers of `3186/peer.cpp` and the proxy: their settings, the replies to their calls and
-- the start.
mod Worlds
mod Run
use zmqtests.Base.{
  ℕ, zero, suc, ◌+◌, ◌-◌, ◌≡◌, ◌≢◌, ◌↔◌, refl, ap, sym, ◌∙◌, Bool, true, false, ◌||◌, List, [], ◌∷◌,
  ◌++◌, arith,
}
use mathlib.Core.Path.{subst}
use zmqtests.Base.Int.{pos}
use zmqtests.Base.Table.{Key}
use zmqtests.Base.Text.{Bytes, bytes}
use zmqtests.Tests.{no_reply}
use zmqtests.Zmq.{
  Call, zmq_poll, zmq_recv, zmq_send, zmq_getsockopt, zmq_events, no_flag, connect, time, Reply,
  Env, ConnectMsg, World, Outcome,
}
use zmqtests.Peer.Table.{bytes_key, strings_fit, Peers}
use zmqtests.Peer.Proxy.Welcome.{welcome}
use zmqtests.Peer.Issue3186.{Setup, peer_round}
use zmqtests.Peer.Issue3186.Run.{heard}
use zmqtests.Peer.Network.{
  Network, Step, round, Reach, put, after_turn, hello, goodbye, sent_on, known, has_welcome,
  has_left,
}
use zmqtests.Peer.Network.Start.{IsStart}
use zmqtests.Peer.Network.Clock.{IsSteady}
use zmqtests.Tests.Peer.{sample}

pub data Side : Type 0 where
  left : Side
  right : Side

unfoldable pub same_side : Side → Side → Bool
same_side left left = true
same_side left right = false
same_side right left = false
same_side right right = true

pub same_side_iff : (a b : Side) → (same_side a b ≡ true) ↔ (a ≡ b)
unfolding same_side
same_side_iff left left = ground arith
same_side_iff left right = ground arith
same_side_iff right left = ground arith
same_side_iff right right = ground arith

instance abbrev pub side_key : Key Side
side_key = record { same = same_side; same_iff = same_side_iff }

abbrev pub left_peer : Setup
left_peer = record sample {
  the_uuid = bytes "l";
  pub_endpoint = bytes "tcp://127.0.0.1:7001";
  end_time = pos 37;
}

abbrev pub right_peer : Setup
right_peer = record sample { the_uuid = bytes "r"; pub_endpoint = bytes "tcp://127.0.0.1:7002" }

abbrev pub peer_of : Side → Setup
peer_of s = elim s [ left ↦ left_peer | right ↦ right_peer ]

pub peers_fit : (s : Side) → strings_fit (peer_of s).the_uuid (peer_of s).pub_endpoint ≡ true
unfolding strings_fit
peers_fit left = refl
peers_fit right = refl

pub peers_differ : (a b : Side) → (peer_of a).the_uuid ≡ (peer_of b).the_uuid → a ≡ b
peers_differ left left q = refl
peers_differ left right q = ground (arith, q)
peers_differ right left q = ground (arith, q)
peers_differ right right q = refl

pub peers_apart : (s : Side) → (peer_of s).data_sub ≢ (peer_of s).proxy_sub
peers_apart left = ground arith
peers_apart right = ground arith

abbrev pub proxy_at : Bytes
proxy_at = bytes "tcp://127.0.0.1:5555"

abbrev pub from_proxy : ConnectMsg
from_proxy = welcome (bytes "p") proxy_at

-- What the polls of the two peers find, in their order.
unfoldable pub script : Side → List (List ConnectMsg)
script left =
    (from_proxy ∷ [])
    ∷ []
    ∷ (hello left_peer ∷ [])
    ∷ (hello right_peer ∷ [])
    ∷ (hello right_peer ∷ [])
    ∷ (hello left_peer ∷ [])
    ∷ (hello left_peer ∷ [])
    ∷ (hello right_peer ∷ [])
    ∷ []
    ∷ (goodbye left_peer ∷ [])
    ∷ []
script right =
    (from_proxy ∷ [])
    ∷ (hello left_peer ∷ [])
    ∷ (hello right_peer ∷ [])
    ∷ (hello right_peer ∷ [])
    ∷ (hello left_peer ∷ [])
    ∷ (hello left_peer ∷ [])
    ∷ (hello right_peer ∷ [])
    ∷ (goodbye left_peer ∷ [])
    ∷ (goodbye left_peer ∷ [])
    ∷ []

unfoldable pub polls : List Call → ℕ
polls [] = 0
polls (zmq_poll ss t ∷ cs) = 1 + polls cs
polls (_ ∷ cs) = polls cs

unfoldable pub item : List (List ConnectMsg) → ℕ → List ConnectMsg
item [] n = []
item (x ∷ xs) zero = x
item (x ∷ xs) (suc n) = item xs n

unfoldable pub reading : List ConnectMsg → Reply
reading [] = no_reply
reading (m ∷ ms) = record no_reply { connect_msg = m }

unfoldable pub finding : List ConnectMsg → Reply
finding [] = no_reply
finding (m ∷ ms) = record no_reply { ready = true ∷ [] }

-- The clock counts the calls.
unfoldable pub clock : List Call → ℕ
clock [] = 0
clock (c ∷ cs) = 1 + clock cs

unfoldable pub reply_of : Side → List Call → Call → Reply
reply_of s cs time = record no_reply { rc = pos (clock cs) }
reply_of s cs (zmq_poll ss t) = finding (item (script s) (polls cs))
reply_of s cs (zmq_recv p) = reading (item (script s) (polls cs - 1))
reply_of s cs c = no_reply

abbrev pub env_of : Side → Env
env_of s = reply_of s

pub env_of-IsSteady : (s : Side) → IsSteady (env_of s)
unfolding clock reply_of
env_of-IsSteady s c cs = ground arith

-- Whose linger is infinite.
abbrev pub lingering : Side → Bool
lingering s = elim s [ left ↦ true | right ↦ false ]

abbrev pub at_start : Network Side
at_start = record {
  worlds = λ s. record { calls = []; log = []; vars = [] };
  joined = λ s. false;
  welcomed = λ s. false;
  linked = λ s. false;
  gone = λ s. false;
  inbox = λ s. [];
}

pub at_start-IsStart : IsStart peer_of at_start
unfolding sent_on
at_start-IsStart = record {
  alone = λ i. refl;
  mute = λ i. refl;
  unheard_of = λ i. refl;
  unasked = λ i. refl;
  unlinked = λ i. refl;
  still_there = λ i. refl;
  silent = λ i. refl;
}

abbrev pub joins : Side → Network Side → Network Side
joins i c = record c { joined = put i true c.joined; inbox = put i (from_proxy ∷ []) c.inbox }

abbrev pub links : Side → Network Side → Network Side
links i c = record c { linked = put i true c.linked }

abbrev pub blank : World Peers
blank = record { calls = []; log = []; vars = [] }

abbrev pub rounds :
    Side
    → World Peers
    → Bool
    → List ConnectMsg
    → List ConnectMsg
    → List ConnectMsg
    → Network Side
    → Network Side
rounds i w leaves got ms box c = after_turn i w (c.welcomed i || has_welcome got) leaves box ms c

abbrev pub StepTo : Network Side → Network Side → Type 0
StepTo = Step peer_of env_of lingering proxy_at (bytes "p")

-- A round whose end is known.
pub round_to :
    (i : Side) (got ms box : List ConnectMsg) (c : Network Side) (w : World Peers)
    (o : Outcome Bool) (v : World Peers)
    → c.worlds i ≡ w
    → peer_round (peer_of i) (env_of i) w ≡ (o, v)
    → c.gone i ≡ false
    → c.inbox i ≡ got ++ box
    → heard (env_of i) (peer_of i).proxy_sub v.calls
      ≡ heard (env_of i) (peer_of i).proxy_sub w.calls ++ got
    → sent_on (peer_of i).proxy_pub v.calls ≡ sent_on (peer_of i).proxy_pub w.calls ++ ms
    → StepTo c (rounds i v (has_left o) got ms box c)
round_to i got ms box c w o v same runs on inboxed ear voice =
    subst
      (λ (r : Outcome Bool × World Peers).
        heard (env_of i) (peer_of i).proxy_sub r.1.calls
          ≡ heard (env_of i) (peer_of i).proxy_sub (c.worlds i).calls ++ got
        → sent_on (peer_of i).proxy_pub r.1.calls
          ≡ sent_on (peer_of i).proxy_pub (c.worlds i).calls ++ ms
        → StepTo c (rounds i r.1 (has_left r.0) got ms box c))
      (ap (peer_round (peer_of i) (env_of i)) same ∙ runs) (round i got ms box c on inboxed)
      (ear ∙ ap (λ x. heard (env_of i) (peer_of i).proxy_sub x.calls ++ got) (sym same))
      (voice ∙ ap (λ x. sent_on (peer_of i).proxy_pub x.calls ++ ms) (sym same))

abbrev pub polled : Call
polled = zmq_poll (3 ∷ 4 ∷ []) (pos 1000)

abbrev pub kick : Call
kick = zmq_getsockopt 1 zmq_events

abbrev pub takes : Call
takes = zmq_recv 3

abbrev pub says : ConnectMsg → Call
says m = zmq_send 2 (connect m) no_flag

abbrev pub entry : Setup → Bytes × Bytes
entry s = (s.the_uuid, s.pub_endpoint)

abbrev pub RunTo : Network Side → Type 0
RunTo = Reach peer_of env_of lingering proxy_at (bytes "p") at_start
