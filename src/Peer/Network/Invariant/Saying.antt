-- ===== src/Peer/Network/Invariant/Saying.antt =====
-- That a peer which handles a message, or announces itself, keeps the invariant.
use zmqtests.Base.{
  ◌≡◌, refl, ap, ◌∙◌, inl, inr, Bool, true, false, not, ◌&&◌, ◌||◌, List, [], ◌∷◌, ◌++◌, Bool-cases,
  if◌then◌else◌, arith,
}
use zmqtests.Base.Table.{Key}
use zmqtests.Zmq.{ConnectMsg, World}
use zmqtests.Peer.Table.{bytes_key, Peers}
use zmqtests.Peer.Network.{sent_on, hello, known, takes_leave, Network, put, after_turn}
use zmqtests.Peer.Network.Messages.{
  told, told-append, takes_leave-append, expected, expected-append, parts, parts-append,
}
use zmqtests.Peer.Network.Knowledge.{Turn, Turn-IsFair, restrict-IsFair}
use zmqtests.Peer.Network.Invariant.{
  Setting, uuid, sends, stays, AllHonest, AllHonest-append, AllHonest-later, both_stay, view_of,
  present, expects, IsTrue, IsSound, is_hello_of-hello, keeps-hello, sends-turn,
}

module _ {A : Type 0} ⦃key : Key A⦄ (g : Setting A) where
  -- What a peer says, where it does, and what one that `hears` it is told.
  abbrev pub said : A → Bool → List ConnectMsg
  said i says = if says then hello (g.setups i) ∷ [] else []

  abbrev forwarded : A → Bool → Bool → List ConnectMsg
  forwarded i hears says = if hears then said i says else []

  told-forwarded :
      (i j : A) (box : List ConnectMsg) (hears says : Bool)
      → told (uuid g j) (box ++ forwarded i hears says)
        ≡ (told (uuid g j) box || (hears && says && key.same j i))
  unfolding told
  told-forwarded i j box hears says =
      ground (arith, is_hello_of-hello g i j, told-append (uuid g j) box (forwarded i hears says))

  expected-forwarded :
      (i j : A) (b : Bool) (box : List ConnectMsg) (hears says : Bool)
      → expected (uuid g j) b (box ++ forwarded i hears says)
        ≡ (if hears && says && key.same j i then true else expected (uuid g j) b box)
  unfolding expected
  expected-forwarded i j b box hears says =
      expected-append (uuid g j) b box (forwarded i hears says)
      ∙ ground (arith, keeps-hello g i j (expected (uuid g j) b box))

  AllHonest-forwarded :
      (staying : A → Bool) (i : A) (hears says : Bool)
      → AllHonest g staying (forwarded i hears says)
  unfolding AllHonest
  AllHonest-forwarded staying i true true = (inr (inl (i, refl)), tt)
  AllHonest-forwarded staying i true false = tt
  AllHonest-forwarded staying i false says = tt

  -- A turn of `i` in which it hears of `heard` and says its connect message if `says`; `box` is what
  -- is left of the messages on their way to it.
  module _ (c : Network A) (i : A) (w : World Peers) (asks leaves says : Bool)
      (box : List ConnectMsg) (heard : A → Bool)
      (voice : sent_on (g.setups i).proxy_pub w.calls ≡ sends g i c ++ said i says)
      (table : (j : A)
        → stays g c j ≡ true
        → known (uuid g j) w.vars ≡ (known (uuid g j) (c.worlds i).vars || heard j))
      (read : (j : A)
        → stays g c j ≡ true
        → told (uuid g j) (c.inbox i) ≡ (heard j || told (uuid g j) box))
      (onward : (j : A) → expected (uuid g j) (known (uuid g j) w.vars) box ≡ expects g c i j) where
    abbrev after : Network A
    after = after_turn i w asks leaves box (said i says) c

    stays-after : (k : A) → stays g after k ≡ stays g c k
    unfolding takes_leave
    stays-after k =
        ap (λ l. not (takes_leave l)) (sends-turn g c i w asks leaves box (said i says) voice k)
        ∙ ground (arith, takes_leave-append (sends g k c) (said i says))

    parts-after :
        (k : A)
        → parts false (sends g k after)
          ≡ (if key.same k i && says then false else parts false (sends g k c))
    unfolding parts
    parts-after k =
        ap (parts false) (sends-turn g c i w asks leaves box (said i says) voice k)
        ∙ ground (arith, parts-append false (sends g k c) (said i says))

    knows-after :
        (k j : A)
        → (view_of g after).knows k j
          ≡ ((view_of g c).knows k j || (key.same k i && (both_stay g c i j && heard j)))
    knows-after k j =
        ground (arith, stays-after k, stays-after j, table j, key.same_iff k i, ap (stays g c))

    learns-after :
        (k j : A)
        → (view_of g after).learns k j ≡ (
            (view_of g c).learns k j
            || ((stays g c i && c.linked i && says) && present g c k && key.same j i))
    learns-after k j = elim (Bool-cases (key.same k i)) [
      | inl same ↦
          let e : k ≡ i = (key.same_iff k i).0 same in
          rw same (
            ground (
              arith,
              stays-after k,
              stays-after j,
              told-forwarded i j box (c.joined k && c.linked i) says,
              table j,
              read j,
              key.same_iff j i,
              ap (stays g c),
              ap (λ n. told (uuid g j) (c.inbox n)) e,
              ap (λ n. known (uuid g j) (c.worlds n).vars) e,
            ))
      | inr other ↦ rw other (
          ground (
            arith,
            stays-after k,
            stays-after j,
            key.same_iff j i,
            ap (stays g c),
            told-forwarded i j (c.inbox k) (c.joined k && c.linked i) says,
          ))
    ]

    expects-after :
        (k j : A)
        → expects g after k j
          ≡ (if c.joined k && c.linked i && says && key.same j i then true else expects g c k j)
    expects-after k j = elim (Bool-cases (key.same k i)) [
      | inl same ↦
          let e : k ≡ i = (key.same_iff k i).0 same in
          rw same (
            expected-forwarded i j (known (uuid g j) w.vars) box (c.joined k && c.linked i) says
            ∙ ground (arith, onward j, ap (λ n. expects g c n j) e))
      | inr other ↦ rw other (
          expected-forwarded i j (known (uuid g j) (c.worlds k).vars) (c.inbox k)
            (c.joined k && c.linked i) says
          ∙ ground arith)
    ]

    after-Turn :
        ((j : A)
          → stays g c j ≡ true
          → heard j ≡ true
          → key.same j i ≡ false
          → known (uuid g j) (c.worlds i).vars ≡ false
          → says ≡ true)
        → IsSound g c
        → Turn
            (present g c)
            i
            (λ j. both_stay g c i j && heard j)
            (stays g c i && c.linked i && says)
            (view_of g c)
            (view_of g after)
    after-Turn replies s = record {
      spread = learns-after;
      gained = knows-after;
      stays = λ k l. ground (arith, l, stays-after k);
      enters = λ k l. ground (arith, l, stays-after k, s.fair.entered k);
      able = λ l. ground (arith, l, stays-after i);
      waiting = λ j l. ground (arith, l, read j);
      replies = λ j l n k m. ground (arith, l, n, k, m, stays-after i, replies j);
    }

    pub after-IsSound :
        (asks ≡ true → c.joined i ≡ true)
        → ((j : A)
            → stays g c j ≡ true
            → heard j ≡ true
            → key.same j i ≡ false
            → known (uuid g j) (c.worlds i).vars ≡ false
            → says ≡ true)
        → (c.joined i ≡ false → box ≡ [])
        → ((j : A) → c.joined i ≡ false → known (uuid g j) w.vars ≡ false)
        → AllHonest g (stays g c) box
        → IsTrue g w.vars
        → IsSound g c
        → IsSound g after
    after-IsSound enters replies empty blank honest true_table s = record {
      greeted = λ k l. ground (arith, key.same_iff k i, enters, s.greeted k);
      fair =
          restrict-IsFair (present g c) (present g after) (λ k. true) (view_of g after)
            (view_of g after) (λ k j. refl) (λ k j. refl) (λ k. refl)
            (λ k. ground (arith, stays-after k))
            (Turn-IsFair (present g c) i (λ j. both_stay g c i j && heard j)
              (stays g c i && c.linked i && says) (view_of g c) (view_of g after)
              (after-Turn replies s) s.fair);
      waits = λ k l. ground (arith, l, key.same_iff k i, empty, s.waits k);
      fresh = λ k j l. ground (arith, l, key.same_iff k i, blank j, s.fresh k j);
      honest = λ k.
          AllHonest-later g (stays g c) (stays g after) (λ j l. stays-after j ∙ l) (after.inbox k)
            (AllHonest-append g (stays g c) (put i box c.inbox k)
              (forwarded i (c.joined k && c.linked i) says)
              (elim (Bool-cases (key.same k i)) [
                | inl same ↦ rw same honest
                | inr other ↦ rw other (s.honest k)
              ])
              (AllHonest-forwarded (stays g c) i (c.joined k && c.linked i) says));
      true_entries = λ k. elim (Bool-cases (key.same k i)) [
        | inl same ↦ rw same true_table
        | inr other ↦ rw other (s.true_entries k)
      ];
      forgotten = λ k j t l. ground (
        arith,
        l,
        parts-after j,
        expects-after k j,
        s.forgotten k j t,
        key.same_iff j i,
        ap c.linked,
      );
    }
