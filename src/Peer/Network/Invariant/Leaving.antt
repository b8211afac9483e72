-- ===== src/Peer/Network/Invariant/Leaving.antt =====
-- That a peer which publishes its disconnect message keeps the invariant.
use zmqtests.Base.{
  ◌≡◌, refl, ap, sym, ◌∙◌, inl, inr, Bool, true, false, not, ◌&&◌, List, [], ◌∷◌, ◌++◌, Bool-cases,
  if◌then◌else◌, arith,
}
use mathlib.Core.Path.{subst}
use zmqtests.Base.Table.{Key}
use zmqtests.Zmq.{ConnectMsg, World}
use zmqtests.Peer.Table.{bytes_key, Peers}
use zmqtests.Peer.Network.{sent_on, goodbye, known, takes_leave, Network, after_turn}
use zmqtests.Peer.Network.Messages.{
  told, told-append, takes_leave-append, expected, expected-append, parts, parts-append,
}
use zmqtests.Peer.Network.Knowledge.{restrict-IsFair}
use zmqtests.Peer.Network.Invariant.{
  Setting, uuid, sends, stays, AllHonest, AllHonest-append, AllHonest-later, view_of, present,
  expects, IsSound, keeps-goodbye, sends-turn,
}

module _ {A : Type 0} ⦃key : Key A⦄ (g : Setting A) where
  abbrev farewells : A → Bool → List ConnectMsg
  farewells i hears = if hears then goodbye (g.setups i) ∷ [] else []

  told-farewells :
      (i j : A) (box : List ConnectMsg) (hears : Bool)
      → told (uuid g j) (box ++ farewells i hears) ≡ told (uuid g j) box
  unfolding told
  told-farewells i j box hears = ground (arith, told-append (uuid g j) box (farewells i hears))

  expected-farewells :
      (i j : A) (b : Bool) (box : List ConnectMsg) (hears : Bool)
      → expected (uuid g j) b (box ++ farewells i hears)
        ≡ (if hears && key.same j i then false else expected (uuid g j) b box)
  unfolding expected
  expected-farewells i j b box hears =
      expected-append (uuid g j) b box (farewells i hears)
      ∙ ground (arith, keeps-goodbye g i j (expected (uuid g j) b box))

  module _ (c : Network A) (i : A) (w : World Peers) (leaves : Bool)
      (voice : sent_on (g.setups i).proxy_pub w.calls ≡ sends g i c ++ goodbye (g.setups i) ∷ [])
      (table : w.vars ≡ (c.worlds i).vars) where
    abbrev pub gone : Network A
    gone = after_turn i w (c.welcomed i) leaves (c.inbox i) (goodbye (g.setups i) ∷ []) c

    abbrev others : A → Bool
    others k = not (key.same k i)

    spoken :
        (k : A)
        → sends g k gone
          ≡ (if key.same k i then sends g k c ++ goodbye (g.setups i) ∷ [] else sends g k c)
    spoken = sends-turn g c i w (c.welcomed i) leaves (c.inbox i) (goodbye (g.setups i) ∷ []) voice

    stays-gone : (k : A) → stays g gone k ≡ (others k && stays g c k)
    unfolding takes_leave
    stays-gone k =
        ap (λ l. not (takes_leave l)) (spoken k)
        ∙ ground (arith, takes_leave-append (sends g k c) (goodbye (g.setups i) ∷ []))

    parts-gone :
        (k : A)
        → parts false (sends g k gone) ≡ (if key.same k i then true else parts false (sends g k c))
    unfolding parts
    parts-gone k =
        ap (parts false) (spoken k)
        ∙ ground (arith, parts-append false (sends g k c) (goodbye (g.setups i) ∷ []))

    known-gone :
        (k j : A) → known (uuid g j) (gone.worlds k).vars ≡ known (uuid g j) (c.worlds k).vars
    known-gone k j = ground (
      arith,
      key.same_iff k i,
      ap (known (uuid g j)) table,
      ap (λ n. known (uuid g j) (c.worlds n).vars),
    )

    abbrev hears : A → Bool
    hears k = c.joined k && c.linked i

    inbox-gone : (k : A) → gone.inbox k ≡ c.inbox k ++ farewells i (hears k)
    inbox-gone k = elim (Bool-cases (key.same k i)) [
      | inl same ↦
          rw same (ap (λ n. c.inbox n ++ farewells i (hears k)) (sym ((key.same_iff k i).0 same)))
      | inr other ↦ rw other refl
    ]

    told-gone : (k j : A) → told (uuid g j) (gone.inbox k) ≡ told (uuid g j) (c.inbox k)
    told-gone k j = ap (told (uuid g j)) (inbox-gone k) ∙ told-farewells i j (c.inbox k) (hears k)

    expects-gone :
        (k j : A)
        → expects g gone k j ≡ (if hears k && key.same j i then false else expects g c k j)
    expects-gone k j =
        ap (expected (uuid g j) (known (uuid g j) (gone.worlds k).vars)) (inbox-gone k)
        ∙ ap (λ b. expected (uuid g j) b (c.inbox k ++ farewells i (hears k))) (known-gone k j)
        ∙ expected-farewells i j (known (uuid g j) (c.worlds k).vars) (c.inbox k) (hears k)

    AllHonest-farewells : (b : Bool) → AllHonest g (stays g gone) (farewells i b)
    unfolding AllHonest
    AllHonest-farewells true =
        (inr (inr (i, refl, ground (arith, stays-gone i, key.same_iff i i))), tt)
    AllHonest-farewells false = tt

    -- Whoever has not joined expects nobody.
    blank : IsSound g c → (k j : A) → c.joined k ≡ false → expects g c k j ≡ false
    unfolding expected
    blank s k j l = rw (s.waits k l) (s.fresh k j l)

    pub gone-IsSound : IsSound g c → IsSound g gone
    unfolding AllHonest
    gone-IsSound s = record {
      greeted = λ k l. ground (arith, key.same_iff k i, s.greeted k);
      fair =
          restrict-IsFair (present g c) (present g gone) others (view_of g c) (view_of g gone)
            (λ k j. ground (arith, stays-gone k, stays-gone j, known-gone k j))
            (λ k j. ground (arith, stays-gone k, stays-gone j, known-gone k j, told-gone k j))
            (λ k. ground (arith, stays-gone k)) (λ k. ground (arith, stays-gone k)) s.fair;
      waits = λ k l. ground (arith, l, key.same_iff k i, s.waits k, s.waits i, ap c.joined);
      fresh = λ k j l. known-gone k j ∙ s.fresh k j l;
      honest = λ k. subst (AllHonest g (stays g gone)) (sym (inbox-gone k)) (
          AllHonest-append g (stays g gone) (c.inbox k) (farewells i (hears k))
            (AllHonest-later g (stays g c) (stays g gone) (λ j l. ground (arith, l, stays-gone j))
              (c.inbox k) (s.honest k))
            (AllHonest-farewells (hears k)));
      true_entries = λ k. elim (Bool-cases (key.same k i)) [
        | inl same ↦ rw same (rw table (s.true_entries i))
        | inr other ↦ rw other (s.true_entries k)
      ];
      forgotten = λ k j t l. ground (
        arith,
        l,
        parts-gone j,
        expects-gone k j,
        s.forgotten k j t,
        blank s k j,
        key.same_iff j i,
        ap c.linked,
      );
    }
