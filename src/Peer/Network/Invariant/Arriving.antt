-- ===== src/Peer/Network/Invariant/Arriving.antt =====
-- That the subscription of a peer and its connection to the proxy keep the invariant.
use zmqtests.Base.{◌≡◌, refl, ap, sym, ◌∙◌, inl, inr, true, false, [], ◌∷◌, Bool-cases, arith}
use zmqtests.Base.Table.{Key}
use zmqtests.Peer.Table.{bytes_key}
use zmqtests.Peer.Proxy.Welcome.{welcome}
use zmqtests.Peer.Network.{Network, put}
use zmqtests.Peer.Network.Messages.{told, expected}
use zmqtests.Peer.Network.Invariant.{Setting, AllHonest, view_of, expects, IsSound}

module _ {A : Type 0} ⦃key : Key A⦄ (g : Setting A) (i : A) (c : Network A) (s : IsSound g c) where
  module _ (absent : c.joined i ≡ false) where
    abbrev joining : Network A
    joining = record c {
      joined = put i true c.joined;
      inbox = put i (welcome g.proxy_uuid g.proxy_endpoint ∷ []) c.inbox;
    }

    learns-joining : (k j : A) → (view_of g joining).learns k j ≡ (view_of g c).learns k j
    unfolding told
    learns-joining k j = ground (arith, key.same_iff k i, s.waits i absent, ap c.inbox)

    expects-joining : (k j : A) → expects g joining k j ≡ expects g c k j
    unfolding expected
    expects-joining k j = ground (arith, key.same_iff k i, s.waits i absent, ap c.inbox)

    pub joining-IsSound : IsSound g joining
    unfolding AllHonest
    joining-IsSound = record {
      greeted = λ k l. ground (arith, s.greeted k l);
      fair = record {
        early = λ k j l. learns-joining k j ∙ s.fair.early k j l;
        reached = λ k j l. s.fair.reached k j (sym (learns-joining k j) ∙ l);
        entered = λ k l. ground (arith, s.fair.entered k l);
        returned =
            λ k j l m. learns-joining k j ∙ s.fair.returned k j l (sym (learns-joining j j) ∙ m);
        met = λ k j l m. ground (
          arith,
          l,
          m,
          s.fair.met k j,
          learns-joining k k,
          learns-joining j j,
          learns-joining k j,
          learns-joining j k,
        );
      };
      waits = λ k l. ground (arith, l, s.waits k);
      fresh = λ k j l. ground (arith, l, s.fresh k j);
      honest = λ k. elim (Bool-cases (key.same k i)) [
        | inl same ↦ rw same (inl refl, tt)
        | inr other ↦ rw other (s.honest k)
      ];
      true_entries = s.true_entries;
      forgotten = λ k j t l. expects-joining k j ∙ s.forgotten k j t l;
    }

  pub linking-IsSound : c.welcomed i ≡ true → IsSound g (record c { linked = put i true c.linked })
  linking-IsSound asked = record {
    greeted = s.greeted;
    fair = record {
      early = s.fair.early;
      reached = λ k j l. ground (arith, l, s.fair.reached k j);
      entered = λ k l. ground (arith, l, key.same_iff k i, s.greeted i asked, s.fair.entered k);
      returned = s.fair.returned;
      met = s.fair.met;
    };
    waits = s.waits;
    fresh = s.fresh;
    honest = s.honest;
    true_entries = s.true_entries;
    forgotten = λ k j t l. ground (arith, l, s.forgotten k j t);
  }
