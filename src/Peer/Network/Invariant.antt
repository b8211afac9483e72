-- ===== src/Peer/Network/Invariant.antt =====
-- What holds in every reachable state of the peers of `3186/peer.cpp` and the proxy.
pub mod Saying
pub mod Leaving
pub mod Arriving
pub mod Turning
pub mod Losing
pub mod Round
pub mod Step
use zmqtests.Base.{
  ◌≡◌, ◌≢◌, refl, ap, sym, ◌∙◌, ◌⊎◌, inl, inr, Bool, true, false, not, ◌&&◌, ◌||◌, some, List, [],
  ◌∷◌, ◌++◌, ◌==◌, Bool-cases, if◌then◌else◌, arith,
}
use zmqtests.Base.Table.{Key, lookup}
use zmqtests.Base.Text.{Bytes, str_eq, str_eq_iff}
use zmqtests.Zmq.{ConnectMsg, Env, World}
use zmqtests.Peer.Table.{bytes_key, Peers, strings_fit, connect_command, disconnect_command}
use zmqtests.Peer.Proxy.Welcome.{welcome}
use zmqtests.Peer.Issue3186.{Setup}
use zmqtests.Peer.Network.{sent_on, hello, goodbye, known, takes_leave, Network, put, after_turn}
use zmqtests.Peer.Network.Messages.{is_hello_of, told, keeps, expected, parts}
use zmqtests.Peer.Network.Knowledge.{View, IsFair}

-- The peers and the proxy, and which peers linger: no two peers have the same uuid, all texts fit their arrays, and each peer
-- has a socket for data of its own.
pub record Setting (A : Type 0) : Type 0 where
  pub setups : A → Setup
  pub distinct : (i j : A) → (setups i).the_uuid ≡ (setups j).the_uuid → i ≡ j
  pub fits : (i : A) → strings_fit (setups i).the_uuid (setups i).pub_endpoint ≡ true
  pub apart : (i : A) → (setups i).data_sub ≢ (setups i).proxy_sub
  pub lingers : A → Bool
  pub proxy_endpoint : Bytes
  pub proxy_uuid : Bytes

module _ {A : Type 0} ⦃key : Key A⦄ (g : Setting A) where
  abbrev pub uuid : A → Bytes
  uuid i = (g.setups i).the_uuid

  -- What a peer has published.
  abbrev pub sends : A → Network A → List ConnectMsg
  sends i c = sent_on (g.setups i).proxy_pub (c.worlds i).calls

  -- The peers that have not published a disconnect message.
  abbrev pub stays : Network A → A → Bool
  stays c i = not (takes_leave (sends i c))

  -- The message of the proxy, a peer's connect message, or the disconnect message of a peer that has
  -- published one.
  abbrev pub IsHonest : (A → Bool) → ConnectMsg → Type 0
  IsHonest staying m =
      (m ≡ welcome g.proxy_uuid g.proxy_endpoint)
      ⊎ ((j : A) × (m ≡ hello (g.setups j)))
      ⊎ ((j : A) × (m ≡ goodbye (g.setups j)) × (staying j ≡ false))

  unfoldable pub AllHonest : (A → Bool) → List ConnectMsg → Type 0
  AllHonest staying [] = Unit
  AllHonest staying (m ∷ ms) = IsHonest staying m × AllHonest staying ms

  pub AllHonest-append :
      (staying : A → Bool) (xs ys : List ConnectMsg)
      → AllHonest staying xs
      → AllHonest staying ys
      → AllHonest staying (xs ++ ys)
  unfolding AllHonest
  AllHonest-append staying [] ys h k = k
  AllHonest-append staying (x ∷ xs) ys (h, hs) k = (h, AllHonest-append staying xs ys hs k)

  -- Fewer peers stay.
  pub AllHonest-later :
      (before after : A → Bool)
      → ((j : A) → before j ≡ false → after j ≡ false)
      → (ms : List ConnectMsg) → AllHonest before ms
      → AllHonest after ms
  unfolding AllHonest
  AllHonest-later before after l [] h = tt
  AllHonest-later before after l (m ∷ ms) (inl w, hs) =
      (inl w, AllHonest-later before after l ms hs)
  AllHonest-later before after l (m ∷ ms) (inr (inl w), hs) =
      (inr (inl w), AllHonest-later before after l ms hs)
  AllHonest-later before after l (m ∷ ms) (inr (inr (j, q, f)), hs) =
      (inr (inr (j, q, l j f)), AllHonest-later before after l ms hs)

  -- What the peers that stay know of one another.
  abbrev pub both_stay : Network A → A → A → Bool
  both_stay c i j = stays c i && stays c j

  abbrev pub view_of : Network A → View A
  view_of c = record {
    knows = λ i j. both_stay c i j && known (uuid j) (c.worlds i).vars;
    learns =
        λ i j. both_stay c i j && (known (uuid j) (c.worlds i).vars || told (uuid j) (c.inbox i));
    linked = λ i. stays c i && c.linked i;
  }

  abbrev pub present : Network A → A → Bool
  present c i = stays c i && c.joined i

  -- Whether `i` has `j` in its table when the messages on their way to it have arrived.
  abbrev pub expects : Network A → A → A → Bool
  expects c i j = expected (uuid j) (known (uuid j) (c.worlds i).vars) (c.inbox i)

  -- A peer whose last words, if others could hear it, were its disconnect message.
  abbrev pub unheard : Network A → A → Bool
  unheard c j = parts false (sends j c) || not (c.linked j)

  -- Every entry of the table is the uuid and the endpoint of a peer.
  abbrev pub IsTrue : Peers → Type 0
  IsTrue peers =
      (u e : Bytes)
      → lookup u peers ≡ some e
      → (j : A) × (u ≡ uuid j) × (e ≡ (g.setups j).pub_endpoint)

  pub record IsSound (c : Network A) : Type 0 where
    pub greeted : (i : A) → c.welcomed i ≡ true → c.joined i ≡ true
    pub fair : IsFair (present c) (view_of c)
    pub waits : (i : A) → c.joined i ≡ false → c.inbox i ≡ []
    pub fresh : (i j : A) → c.joined i ≡ false → known (uuid j) (c.worlds i).vars ≡ false
    pub honest : (i : A) → AllHonest (stays c) (c.inbox i)
    pub true_entries : (i : A) → IsTrue (c.worlds i).vars
    pub forgotten : (i j : A) → g.lingers j ≡ true → unheard c j ≡ true → expects c i j ≡ false

  pub is_hello_of-hello : (i j : A) → is_hello_of (uuid j) (hello (g.setups i)) ≡ key.same j i
  is_hello_of-hello i j =
      ground (arith, str_eq_iff (uuid i) (uuid j), g.distinct i j, key.same_iff j i, ap uuid)

  pub is_hello_of-goodbye : (i j : A) → is_hello_of (uuid j) (goodbye (g.setups i)) ≡ false
  is_hello_of-goodbye i j = refl

  pub keeps-hello :
      (i j : A) (b : Bool)
      → keeps (uuid j) (hello (g.setups i)) b ≡ (if key.same j i then true else b)
  keeps-hello i j b =
      ground (arith, str_eq_iff (uuid i) (uuid j), g.distinct i j, key.same_iff j i, ap uuid)

  pub keeps-goodbye :
      (i j : A) (b : Bool)
      → keeps (uuid j) (goodbye (g.setups i)) b ≡ (if key.same j i then false else b)
  keeps-goodbye i j b =
      ground (arith, str_eq_iff (uuid i) (uuid j), g.distinct i j, key.same_iff j i, ap uuid)

  -- A turn of a peer that has published `ms`.
  module _ (c : Network A) (i : A) (w : World Peers) (asks leaves : Bool) (box ms : List ConnectMsg)
      (voice : sent_on (g.setups i).proxy_pub w.calls ≡ sends i c ++ ms) where
    pub sends-turn :
        (k : A)
        → sends k (after_turn i w asks leaves box ms c)
          ≡ (if key.same k i then sends k c ++ ms else sends k c)
    sends-turn k = elim (Bool-cases (key.same k i)) [
      | inl same ↦
          let e : k ≡ i = (key.same_iff k i).0 same in
          rw same (
            ap (λ n. sent_on (g.setups n).proxy_pub w.calls) e
            ∙ voice
            ∙ ap (λ n. sends n c ++ ms) (sym e))
      | inr other ↦ rw other refl
    ]
