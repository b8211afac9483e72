-- ===== src/Peer/Network/Invariant/Losing.antt =====
-- That what is lost behind a peer which has left its loop keeps the invariant.
use zmqtests.Base.{
  ◌≡◌, ◌≢◌, refl, ap, sym, ◌∙◌, ◌⊎◌, inl, inr, Bool, true, false, List, [], ◌∷◌, ◌++◌, Bool-cases,
  if◌then◌else◌, arith,
}
use mathlib.Core.Path.{subst}
use zmqtests.Base.Table.{Key}
use zmqtests.Zmq.{ConnectMsg}
use zmqtests.Peer.Table.{bytes_key}
use zmqtests.Peer.Network.{hello, goodbye, known, Network, put}
use zmqtests.Peer.Network.Messages.{
  is_hello_of, told, told-append, keeps, expected, expected-append,
}
use zmqtests.Peer.Network.Knowledge.{restrict-IsFair}
use zmqtests.Peer.Network.Invariant.{
  Setting, uuid, stays, AllHonest, view_of, present, expects, IsSound, is_hello_of-hello,
  keeps-hello, keeps-goodbye,
}

not_empty : {A : Type 0} (xs ys : List A) (x : A) → xs ++ x ∷ ys ≢ []
not_empty [] ys x q = ground (arith, q)
not_empty (z ∷ xs) ys x q = ground (arith, q)

module _ {A : Type 0} ⦃key : Key A⦄ (g : Setting A) where
  AllHonest-drop :
      (staying : A → Bool) (xs ys : List ConnectMsg) (m : ConnectMsg)
      → AllHonest g staying (xs ++ m ∷ ys)
      → AllHonest g staying (xs ++ ys)
  unfolding AllHonest
  AllHonest-drop staying [] ys m (h, hs) = hs
  AllHonest-drop staying (x ∷ xs) ys m (h, hs) = (h, AllHonest-drop staying xs ys m hs)

  module _ (i k : A) (m : ConnectMsg) (before behind : List ConnectMsg) (c : Network A)
      (word : (m ≡ hello (g.setups i)) ⊎ (m ≡ goodbye (g.setups i)))
      (there : c.inbox k ≡ before ++ m ∷ behind) where
    abbrev pub losing : Network A
    losing = record c { inbox = put k (before ++ behind) c.inbox }

    other_hello : (j : A) → key.same j i ≡ false → is_hello_of (uuid g j) m ≡ false
    other_hello j other = elim word [
      | inl w ↦ ap (is_hello_of (uuid g j)) w ∙ is_hello_of-hello g i j ∙ other
      | inr w ↦ ap (is_hello_of (uuid g j)) w
    ]

    other_keeps : (j : A) (b : Bool) → key.same j i ≡ false → keeps (uuid g j) m b ≡ b
    other_keeps j b other = elim word [
      | inl w ↦
          ap (λ x. keeps (uuid g j) x b) w
          ∙ keeps-hello g i j b
          ∙ ap (λ x. if x then true else b) other
      | inr w ↦
          ap (λ x. keeps (uuid g j) x b) w
          ∙ keeps-goodbye g i j b
          ∙ ap (λ x. if x then false else b) other
    ]

    pub told-losing :
        (n j : A)
        → key.same j i ≡ false
        → told (uuid g j) (losing.inbox n) ≡ told (uuid g j) (c.inbox n)
    unfolding told
    told-losing n j other = elim (Bool-cases (key.same n k)) [
      | inl same ↦ rw same (
          told-append (uuid g j) before behind
          ∙ ground (arith, other_hello j other, told-append (uuid g j) before (m ∷ behind))
          ∙ ap (told (uuid g j)) (sym there)
          ∙ ap (λ x. told (uuid g j) (c.inbox x)) (sym ((key.same_iff n k).0 same)))
      | inr differs ↦ rw differs refl
    ]

    expects-losing : (n j : A) → key.same j i ≡ false → expects g losing n j ≡ expects g c n j
    unfolding expected
    expects-losing n j other = elim (Bool-cases (key.same n k)) [
      | inl same ↦
          let u = uuid g j in
          let b = known u (c.worlds n).vars in
          rw same (
            expected-append u b before behind
            ∙ ap (λ x. expected u x behind) (sym (other_keeps j (expected u b before) other))
            ∙ sym (expected-append u b before (m ∷ behind))
            ∙ ap (expected u b) (sym there)
            ∙ ap (λ x. expected u b (c.inbox x)) (sym ((key.same_iff n k).0 same)))
      | inr differs ↦ rw differs refl
    ]

    pub losing-IsSound : stays g c i ≡ false → g.lingers i ≡ false → IsSound g c → IsSound g losing
    losing-IsSound left fast s = record {
      greeted = s.greeted;
      fair =
          restrict-IsFair (present g c) (present g losing) (λ n. true) (view_of g c)
            (view_of g losing) (λ n j. refl)
            (λ n j. ground (arith, left, told-losing n j, key.same_iff j i, ap (stays g c)))
            (λ n. refl) (λ n. refl) s.fair;
      waits = λ n l. elim (Bool-cases (key.same n k)) [
        | inl same ↦
            let no_one : c.joined k ≡ false = ap c.joined (sym ((key.same_iff n k).0 same)) ∙ l in
            elim (not_empty before behind m (sym there ∙ s.waits k no_one)) [ ]
        | inr differs ↦ rw differs (s.waits n l)
      ];
      fresh = s.fresh;
      honest = λ n. elim (Bool-cases (key.same n k)) [
        | inl same ↦ rw same (
            AllHonest-drop (stays g c) before behind m
              (subst (AllHonest g (stays g c)) there (s.honest k)))
        | inr differs ↦ rw differs (s.honest n)
      ];
      true_entries = s.true_entries;
      forgotten = λ n j t l. elim (Bool-cases (key.same j i)) [
        | inl same ↦ cc (t, fast, ap g.lingers ((key.same_iff j i).0 same))
        | inr other ↦ expects-losing n j other ∙ s.forgotten n j t l
      ];
    }
