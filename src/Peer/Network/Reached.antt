-- ===== src/Peer/Network/Reached.antt =====
-- What holds in every state that the peers of `3186/peer.cpp` and the proxy reach from a start.
use zmqtests.Base.{
  ◌≡◌, refl, ap, sym, ◌∙◌, inl, inr, Bool, true, false, not, ◌||◌, List, ◌++◌, if◌then◌else◌,
  Bool-cases, arith,
}
use mathlib.Core.Path.{subst}
use zmqtests.Base.Table.{Key}
use zmqtests.Zmq.{ConnectMsg, Env, Outcome}
use zmqtests.Peer.Table.{bytes_key, Peers}
use zmqtests.Peer.Issue3186.Directory.{is_own_goodbye}
use zmqtests.Peer.Network.{
  sent_on, takes_leave, Network, after_turn, has_welcome, has_left, Step, join, link, round, lose,
}
use zmqtests.Peer.Network.Messages.{takes_leave-append, parts, parts-append}
use zmqtests.Peer.Network.Clock.{IsSteady, due-peer_round}
use zmqtests.Peer.Network.Invariant.{Setting, sends, stays, sends-turn}
use zmqtests.Peer.Network.Invariant.Turning.{read-IsHonest}
use zmqtests.Peer.Network.Invariant.Step.{
  due_of, Turned, at_once, unread, read, outcome_of, behind, round-Turned, Step-IsKept, IsKept,
  own_leave,
}

module _ {A : Type 0} ⦃key : Key A⦄ (g : Setting A) (envs : A → Env) where
  pub record IsLive (c : Network A) : Type 0 where
    pub kept : IsKept g envs c
    pub overdue : (i : A) → stays g c i ≡ false → due_of g envs c i ≡ true
    pub last : (i : A) → c.gone i ≡ true → parts false (sends g i c) ≡ true

  module _ (i : A) (c : Network A) where
    -- Only a peer whose time is over says that it leaves.
    leave-due :
        (o : Outcome Bool) (table : Peers) (got ms : List ConnectMsg)
        → Turned g envs i c o table got ms
        → takes_leave ms ≡ true
        → due_of g envs c i ≡ true
    unfolding takes_leave
    leave-due o table _ _ (at_once d q v) l = d
    leave-due o table _ _ (unread q v) l = ground (arith, l)
    leave-due o table _ _ (read m q v) l = ground (arith, l)

    -- A peer that leaves its loop has just published its disconnect message.
    leaving-parts :
        (o : Outcome Bool) (table : Peers) (got ms box : List ConnectMsg)
        → c.inbox i ≡ got ++ box
        → IsLive c
        → Turned g envs i c o table got ms
        → has_left o ≡ true
        → parts (parts false (sends g i c)) ms ≡ true
    unfolding parts
    leaving-parts o table _ _ box inboxed s (at_once d q v) l = refl
    leaving-parts o table _ _ box inboxed s (unread q v) l = cc (l, ap has_left q)
    leaving-parts o table _ _ box inboxed s (read m q v) l =
        let own : is_own_goodbye (g.setups i) m (c.worlds i).vars ≡ true =
          sym (ap has_left q) ∙ l in
        let honest = (read-IsHonest g c i m box inboxed s.kept.sound).0 in
        let d = s.overdue i (own_leave g envs i c m own honest) in ground (arith, own, d)

  module _ (steady : (i : A) → IsSteady (envs i)) where
    module _ (i : A) (got ms box : List ConnectMsg) (c : Network A) (on : c.gone i ≡ false)
        (inboxed : c.inbox i ≡ got ++ box)
        (voice : sent_on (g.setups i).proxy_pub (behind g envs i c).calls ≡ sends g i c ++ ms)
        (s : IsLive c)
        (t : Turned g envs i c (outcome_of g envs i c) (behind g envs i c).vars got ms) where
      abbrev then_on : Network A
      then_on =
          after_turn i (behind g envs i c) (c.welcomed i || has_welcome got)
            (has_left (outcome_of g envs i c)) box ms c

      sends-then_on :
          (k : A) → sends g k then_on ≡ (if key.same k i then sends g k c ++ ms else sends g k c)
      sends-then_on =
          sends-turn g c i (behind g envs i c) (c.welcomed i || has_welcome got)
            (has_left (outcome_of g envs i c)) box ms voice

      due-then_on : due_of g envs c i ≡ true → due_of g envs then_on i ≡ true
      due-then_on d = ground (
        arith,
        key.same_iff i i,
        due-peer_round (g.setups i) (g.fits i) (envs i) (steady i) (c.worlds i) d,
      )

      overdue_own : stays g then_on i ≡ false → due_of g envs then_on i ≡ true
      overdue_own l =
          let now : (takes_leave (sends g i c) || takes_leave ms) ≡ true = ground (
            arith,
            l,
            key.same_iff i i,
            ap takes_leave voice,
            takes_leave-append (sends g i c) ms,
          ) in
          due-then_on (elim (Bool-cases (takes_leave (sends g i c))) [
            | inl before ↦ s.overdue i (ap not before)
            | inr not_yet ↦
                leave-due i c (outcome_of g envs i c) (behind g envs i c).vars got ms t
                  (sym (ap (λ b. b || takes_leave ms) not_yet) ∙ now)
          ])

      overdue-then_on : (k : A) → stays g then_on k ≡ false → due_of g envs then_on k ≡ true
      overdue-then_on k l = elim (Bool-cases (key.same k i)) [
        | inl same ↦
            subst (λ n. stays g then_on n ≡ false → due_of g envs then_on n ≡ true)
              (sym ((key.same_iff k i).0 same)) overdue_own l
        | inr other ↦ ground (arith, l, other, s.overdue k)
      ]

      last-then_on : (k : A) → then_on.gone k ≡ true → parts false (sends g k then_on) ≡ true
      last-then_on k l = elim (Bool-cases (key.same k i)) [
        | inl same ↦
            let left : has_left (outcome_of g envs i c) ≡ true = ground (arith, l, same) in
            ap (parts false)
              (sends-then_on k ∙ rw same (ap (λ n. sends g n c ++ ms) ((key.same_iff k i).0 same)))
            ∙ parts-append false (sends g i c) ms
            ∙ leaving-parts i c (outcome_of g envs i c) (behind g envs i c).vars got ms box inboxed
                s t left
        | inr other ↦ ground (arith, l, other, s.last k)
      ]

    pub Step-IsLive :
        (c d : Network A)
        → Step g.setups envs g.lingers g.proxy_endpoint g.proxy_uuid c d
        → IsLive c
        → IsLive d
    Step-IsLive c d (join i _ absent) s = record {
      kept = Step-IsKept g envs c d (join i c absent) s.kept;
      overdue = s.overdue;
      last = s.last;
    }
    Step-IsLive c d (link i _ asked) s = record {
      kept = Step-IsKept g envs c d (link i c asked) s.kept;
      overdue = s.overdue;
      last = s.last;
    }
    Step-IsLive c d (round i got ms box _ on inboxed ear voice) s =
        let t = round-Turned g envs i c got ms ear voice in
        record {
          kept = Step-IsKept g envs c d (round i got ms box c on inboxed ear voice) s.kept;
          overdue = overdue-then_on i got ms box c on inboxed voice s t;
          last = last-then_on i got ms box c on inboxed voice s t;
        }
    Step-IsLive c d (lose i k m before rest _ gone fast word there) s = record {
      kept = Step-IsKept g envs c d (lose i k m before rest c gone fast word there) s.kept;
      overdue = s.overdue;
      last = s.last;
    }
