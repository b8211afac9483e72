-- ===== src/Peer/Network/Start.antt =====
-- The start of the peers of `3186/peer.cpp` and the proxy, and what holds in what they reach from it.
use zmqtests.Base.{◌≡◌, refl, ◌≢◌, ap, sym, ◌∙◌, false, some, [], arith}
use zmqtests.Base.Table.{Key, lookup}
use zmqtests.Base.Text.{Bytes}
use zmqtests.Zmq.{Env}
use zmqtests.Peer.Table.{bytes_key}
use zmqtests.Peer.Issue3186.{Setup}
use zmqtests.Peer.Network.{sent_on, known, takes_leave, Network, Reach, here, one_more}
use zmqtests.Peer.Network.Messages.{told, expected}
use zmqtests.Peer.Network.Clock.{IsSteady}
use zmqtests.Peer.Network.Invariant.{Setting, uuid, AllHonest, IsSound}
use zmqtests.Peer.Network.Invariant.Step.{IsKept, Step-IsKept}
use zmqtests.Peer.Network.Reached.{IsLive, Step-IsLive}

-- No peer knows of any, none has subscribed, published or left, and no message is on its way.
pub record IsStart {A : Type 0} (setups : A → Setup) (c : Network A) : Type 0 where
  pub alone : (i : A) → (c.worlds i).vars ≡ []
  pub mute : (i : A) → sent_on (setups i).proxy_pub (c.worlds i).calls ≡ []
  pub unheard_of : (i : A) → c.joined i ≡ false
  pub unasked : (i : A) → c.welcomed i ≡ false
  pub unlinked : (i : A) → c.linked i ≡ false
  pub still_there : (i : A) → c.gone i ≡ false
  pub silent : (i : A) → c.inbox i ≡ []

module _ {A : Type 0} ⦃key : Key A⦄ (g : Setting A) (envs : A → Env) where
  abbrev Run : Network A → Network A → Type 0
  Run = Reach g.setups envs g.lingers g.proxy_endpoint g.proxy_uuid

  absent : (u e : Bytes) → lookup u [] ≢ some e
  unfolding lookup
  absent u e q = ground (arith, q)

  known_nobody :
      (c : Network A) → IsStart g.setups c → (u : Bytes) (i : A) → known u (c.worlds i).vars ≡ false
  unfolding lookup
  known_nobody c b u i = rw (b.alone i) refl

  start-IsSound : (c : Network A) → IsStart g.setups c → IsSound g c
  unfolding AllHonest told expected
  start-IsSound c b = record {
    greeted = λ i l. cc (l, b.unasked i);
    fair = record {
      early = λ i j l. ground (arith, l, known_nobody c b (uuid g j) i);
      reached = λ i j l.
          ground (arith, l, known_nobody c b (uuid g j) i, ap (told (uuid g j)) (b.silent i));
      entered = λ i l. ground (arith, l, b.unlinked i);
      returned = λ i j l m. ground (arith, l, known_nobody c b (uuid g i) j);
      met = λ i j l m.
          ground (arith, l, known_nobody c b (uuid g i) i, ap (told (uuid g i)) (b.silent i));
    };
    waits = λ i l. b.silent i;
    fresh = λ i j l. known_nobody c b (uuid g j) i;
    honest = λ i. rw (b.silent i) tt;
    true_entries = λ i u e q. elim (absent u e (ap (lookup u) (sym (b.alone i)) ∙ q)) [ ];
    forgotten = λ i j t l.
        ap (expected (uuid g j) (known (uuid g j) (c.worlds i).vars)) (b.silent i)
        ∙ known_nobody c b (uuid g j) i;
  }

  start-IsKept : (c : Network A) → IsStart g.setups c → IsKept g envs c
  start-IsKept c b = record { sound = start-IsSound c b; left = λ i l. cc (l, b.still_there i) }

  start-IsLive : (c : Network A) → IsStart g.setups c → IsLive g envs c
  unfolding takes_leave
  start-IsLive c b = record {
    kept = start-IsKept c b;
    overdue = λ i l. ground (arith, l, ap takes_leave (b.mute i));
    last = λ i l. cc (l, b.still_there i);
  }

  pub Reach-IsKept : (from c : Network A) → IsStart g.setups from → Run from c → IsKept g envs c
  Reach-IsKept from _ b here = start-IsKept from b
  Reach-IsKept from _ b (one_more {c} {d} r s) = Step-IsKept g envs c d s (Reach-IsKept from c b r)

  pub Reach-IsLive :
      ((i : A) → IsSteady (envs i))
      → (from c : Network A) → IsStart g.setups from
      → Run from c
      → IsLive g envs c
  Reach-IsLive steady from _ b here = start-IsLive from b
  Reach-IsLive steady from _ b (one_more {c} {d} r s) =
      Step-IsLive g envs steady c d s (Reach-IsLive steady from c b r)
