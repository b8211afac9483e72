-- ===== src/Peer/Network/Agreement.antt =====
-- What the tables of the peers of `3186/peer.cpp` agree on when their messages have arrived.
use zmqtests.Base.{
  Bool, ◌≡◌, ◌≢◌, ap, sym, ◌∙◌, inl, inr, true, false, ◌||◌, none, some, [], Option-cases, arith,
}
use zmqtests.Base.Table.{Key, lookup}
use zmqtests.Base.Text.{Bytes}
use zmqtests.Zmq.{Env}
use zmqtests.Peer.Table.{bytes_key, strings_fit}
use zmqtests.Peer.Issue3186.{Setup}
use zmqtests.Peer.Network.{sent_on, known, takes_leave, Network, Reach}
use zmqtests.Peer.Network.Messages.{told, expected}
use zmqtests.Peer.Network.Clock.{IsSteady}
use zmqtests.Peer.Network.Invariant.{Setting, uuid, sends, unheard, IsSound}
use zmqtests.Peer.Network.Start.{IsStart, Reach-IsKept, Reach-IsLive}
use zmqtests.Peer.Network.Reached.{IsLive}

abbrev pub setting_of :
    {A : Type 0} (setups : A → Setup)
    → ((i : A) → strings_fit (setups i).the_uuid (setups i).pub_endpoint ≡ true)
    → ((i j : A) → (setups i).the_uuid ≡ (setups j).the_uuid → i ≡ j)
    → ((i : A) → (setups i).data_sub ≢ (setups i).proxy_sub)
    → (A → Bool)
    → Bytes
    → Bytes
    → Setting A
setting_of setups fits distinct apart lingers pe pu = record {
  setups = setups;
  distinct = distinct;
  fits = fits;
  apart = apart;
  lingers = lingers;
  proxy_endpoint = pe;
  proxy_uuid = pu;
}

module _ {A : Type 0} ⦃key : Key A⦄ (g : Setting A) (envs : A → Env) where
  pub learned :
      (c : Network A) (i : A) (u : Bytes)
      → c.inbox i ≡ []
      → (known u (c.worlds i).vars || told u (c.inbox i)) ≡ known u (c.worlds i).vars
  unfolding told
  learned c i u q = ground (arith, ap (told u) q)

  known_each_other :
      (c : Network A)
      → IsSound g c
      → (i j : A) → c.inbox i ≡ []
      → c.inbox j ≡ []
      → takes_leave (sends g i c) ≡ false
      → takes_leave (sends g j c) ≡ false
      → known (uuid g i) (c.worlds i).vars ≡ true
      → known (uuid g j) (c.worlds j).vars ≡ true
      → known (uuid g j) (c.worlds i).vars ≡ true
  known_each_other c s i j p q m n k l = ground (
    arith,
    k,
    l,
    m,
    n,
    learned c i (uuid g i) p,
    learned c i (uuid g j) p,
    learned c j (uuid g i) q,
    learned c j (uuid g j) q,
    s.fair.met i j,
    s.fair.returned i j,
  )

  pub known_entry :
      (c : Network A)
      → IsSound g c
      → (i j : A) → known (uuid g j) (c.worlds i).vars ≡ true
      → lookup (uuid g j) (c.worlds i).vars ≡ some (g.setups j).pub_endpoint
  known_entry c s i j k = elim (Option-cases (lookup (uuid g j) (c.worlds i).vars)) [
    | inl no_one ↦ ground (arith, k, no_one)
    | inr (e, found) ↦
        let (n, same, own) = s.true_entries i (uuid g j) e found in
        found ∙ ap some (own ∙ ap (λ m. (g.setups m).pub_endpoint) (sym (g.distinct j n same)))
  ]

  forgotten_entry :
      (c : Network A)
      → IsLive g envs c
      → (i p : A) → g.lingers p ≡ true
      → c.gone p ≡ true
      → c.inbox i ≡ []
      → lookup (uuid g p) (c.worlds i).vars ≡ none
  unfolding expected
  forgotten_entry c s i p slow left q =
      let u = uuid g p in
      let last : unheard g c p ≡ true = ground (arith, s.last p left) in
      let gone : known u (c.worlds i).vars ≡ false =
        sym (ap (expected u (known u (c.worlds i).vars)) q)
        ∙ s.kept.sound.forgotten i p slow last in
      ground (arith, gone)

-- Any number of peers start with empty tables, with nothing published and none of them subscribed
-- to the proxy, and go through any sequence of these steps: a peer's subscription reaches the
-- proxy, which sends it the welcome message; a peer that has not left its loop makes a round of it,
-- in which the messages that `zmq_recv` writes, at most one, are the next on their way to it; the
-- connection to the proxy, which a peer asks for with the welcome message, stands; a message of a
-- peer that has left its loop and does not linger is lost on its way to a peer. What a peer
-- publishes before its connection stands is lost, and what it publishes behind that reaches those
-- who have subscribed by then, in order. The uuids are distinct, uuids and endpoints fit the arrays
-- of a `connectMsg`, and each peer has a socket for data apart from that for the proxy. Then, however
-- late each peer came and whoever else has left, whenever two peers have published no disconnect
-- message, no messages are on their way to them and each of them knows itself, each has the other in
-- its table, with the endpoint that the other publishes at.
pub Reach-discovers :
    {A : Type 0} ⦃key : Key A⦄ (setups : A → Setup)
    → ((i : A) → strings_fit (setups i).the_uuid (setups i).pub_endpoint ≡ true)
    → ((i j : A) → (setups i).the_uuid ≡ (setups j).the_uuid → i ≡ j)
    → ((i : A) → (setups i).data_sub ≢ (setups i).proxy_sub)
    → (envs : A → Env) (lingers : A → Bool) (proxy_endpoint proxy_uuid : Bytes) (from c : Network A)
    → IsStart setups from
    → Reach setups envs lingers proxy_endpoint proxy_uuid from c
    → (i j : A) → takes_leave (sent_on (setups i).proxy_pub (c.worlds i).calls) ≡ false
    → takes_leave (sent_on (setups j).proxy_pub (c.worlds j).calls) ≡ false
    → c.inbox i ≡ []
    → c.inbox j ≡ []
    → known (setups i).the_uuid (c.worlds i).vars ≡ true
    → known (setups j).the_uuid (c.worlds j).vars ≡ true
    → (lookup (setups j).the_uuid (c.worlds i).vars ≡ some (setups j).pub_endpoint)
      × (lookup (setups i).the_uuid (c.worlds j).vars ≡ some (setups i).pub_endpoint)
Reach-discovers setups fits distinct apart envs lingers pe pu from c b r i j m n p q k l =
    let g = setting_of setups fits distinct apart lingers pe pu in
    let s = (Reach-IsKept g envs from c b r).sound in
    (
      known_entry g envs c s i j (known_each_other g envs c s i j p q m n k l),
      known_entry g envs c s j i (known_each_other g envs c s j i q p n m l k),
    )

-- Any number of peers start with empty tables, with nothing published and none of them subscribed
-- to the proxy. A subscription reaches the proxy and is answered by the welcome message; a peer that
-- has not left its loop makes a round, which reads the next message on its way or none; a
-- connection that the welcome message led to stands, and what the peer publishes from then on
-- reaches, in order, those who have subscribed; but a message of a peer that has left its loop and
-- does not linger can be lost on its way. The uuids are distinct, uuids and endpoints fit the
-- arrays of a `connectMsg`, each peer has a socket for data apart from that for the proxy, and no
-- call sets a peer's clock back. Then, after any sequence of these steps, a peer that lingers, its
-- linger period being infinite, and has left its loop, at once when its time is over or on reading
-- its own disconnect message, stands in the table of no peer that has no message on its way to it,
-- itself included.
pub Reach-forgets :
    {A : Type 0} ⦃key : Key A⦄ (setups : A → Setup)
    → ((i : A) → strings_fit (setups i).the_uuid (setups i).pub_endpoint ≡ true)
    → ((i j : A) → (setups i).the_uuid ≡ (setups j).the_uuid → i ≡ j)
    → ((i : A) → (setups i).data_sub ≢ (setups i).proxy_sub)
    → (envs : A → Env) → ((i : A) → IsSteady (envs i))
    → (lingers : A → Bool) (proxy_endpoint proxy_uuid : Bytes) (from c : Network A)
    → IsStart setups from
    → Reach setups envs lingers proxy_endpoint proxy_uuid from c
    → (i p : A) → lingers p ≡ true
    → c.gone p ≡ true
    → c.inbox i ≡ []
    → lookup (setups p).the_uuid (c.worlds i).vars ≡ none
Reach-forgets setups fits distinct apart envs steady lingers pe pu from c b r =
    let g = setting_of setups fits distinct apart lingers pe pu in
    forgotten_entry g envs c (Reach-IsLive g envs steady from c b r)

-- Any number of peers start with empty tables, with nothing published and none of them subscribed
-- to the proxy. A subscription reaches the proxy and is answered by the welcome message; a peer that
-- has not left its loop makes a round, which reads the next message on its way or none; a
-- connection that the welcome message led to stands, and what the peer publishes from then on
-- reaches, in order, those who have subscribed; but a message of a peer that has left its loop and
-- does not linger can be lost on its way. The uuids are distinct, uuids and endpoints fit the
-- arrays of a `connectMsg`, and each peer has a socket for data apart from that for the proxy. Then,
-- after any sequence of these steps, departures included, every entry of a peer's table is the uuid
-- of a peer with the endpoint that this peer publishes at.
pub Reach-true :
    {A : Type 0} ⦃key : Key A⦄ (setups : A → Setup)
    → ((i : A) → strings_fit (setups i).the_uuid (setups i).pub_endpoint ≡ true)
    → ((i j : A) → (setups i).the_uuid ≡ (setups j).the_uuid → i ≡ j)
    → ((i : A) → (setups i).data_sub ≢ (setups i).proxy_sub)
    → (envs : A → Env) (lingers : A → Bool) (proxy_endpoint proxy_uuid : Bytes) (from c : Network A)
    → IsStart setups from
    → Reach setups envs lingers proxy_endpoint proxy_uuid from c
    → (i : A) (u e : Bytes) → lookup u (c.worlds i).vars ≡ some e
    → (j : A) × (u ≡ (setups j).the_uuid) × (e ≡ (setups j).pub_endpoint)
Reach-true setups fits distinct apart envs lingers pe pu from c b r =
    let g = setting_of setups fits distinct apart lingers pe pu in
    (Reach-IsKept g envs from c b r).sound.true_entries
