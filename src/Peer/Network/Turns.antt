-- ===== src/Peer/Network/Turns.antt =====
-- Two turns of one peer in a row are one turn.
use zmqtests.Base.{
  ◌≡◌, refl, ap, sym, ◌∙◌, inl, inr, Bool, ◌&&◌, List, [], ◌++◌, Bool-cases, if◌then◌else◌,
}
use mathlib.Core.Path.{fun_ext}
use mathlib.Core.List.{append-nil, append_assoc}
use zmqtests.Base.Table.{Key}
use zmqtests.Zmq.{ConnectMsg, World}
use zmqtests.Peer.Table.{Peers}
use zmqtests.Peer.Network.{Network, put, after_turn}

module _ {A : Type 0} ⦃key : Key A⦄ where
  pub put_same : {B : Type 0} (i : A) (x : B) (f : A → B) → put i x f i ≡ x
  put_same i x f = rw ((key.same_iff i i).1 refl) refl

  put-put : {B : Type 0} (i : A) (x y : B) (f : A → B) → put i x (put i y f) ≡ put i x f
  put-put i x y f =
      fun_ext λ k. elim (Bool-cases (key.same k i)) [
        | inl same ↦ rw same refl
        | inr other ↦ rw other refl
      ]

  -- What reaches a peer of the messages `ms` of `i`.
  abbrev pub reaching : Network A → A → A → List ConnectMsg → List ConnectMsg
  reaching c i k ms = if c.joined k && c.linked i then ms else []

  reaching-append :
      (c : Network A) (i k : A) (box xs ys : List ConnectMsg)
      → (box ++ reaching c i k xs) ++ reaching c i k ys ≡ box ++ reaching c i k (xs ++ ys)
  reaching-append c i k box xs ys = elim (Bool-cases (c.joined k && c.linked i)) [
    | inl yes_there ↦ rw yes_there (append_assoc box xs ys)
    | inr not_there ↦ rw not_there (append-nil (box ++ []))
  ]

  -- `box'` is what is left behind the second turn.
  pub turn-turn :
      (c : Network A) (i : A) (w w' : World Peers) (asks leaves asks' leaves' : Bool)
      (box rest box' xs ys : List ConnectMsg)
      → box' ≡ rest ++ reaching c i i xs
      → after_turn i w' asks' leaves' box' ys (after_turn i w asks leaves box xs c)
        ≡ after_turn i w' asks' leaves' rest (xs ++ ys) c
  turn-turn c i w w' asks leaves asks' leaves' box rest box' xs ys q = λ t. record {
    worlds = put-put i w' w c.worlds t;
    joined = c.joined;
    welcomed = put-put i asks' asks c.welcomed t;
    linked = c.linked;
    gone = put-put i leaves' leaves c.gone t;
    inbox = λ k. boxes k t;
  }
    where
      boxes :
          (k : A)
          → put i box' (λ n. put i box c.inbox n ++ reaching c i n xs) k ++ reaching c i k ys
            ≡ put i rest c.inbox k ++ reaching c i k (xs ++ ys)
      boxes k = elim (Bool-cases (key.same k i)) [
        | inl same ↦ rw same (
            ap (λ b. b ++ reaching c i k ys)
              (q ∙ ap (λ n. rest ++ reaching c i n xs) (sym ((key.same_iff k i).0 same)))
            ∙ reaching-append c i k rest xs ys)
        | inr other ↦ rw other (reaching-append c i k (c.inbox k) xs ys)
      ]
