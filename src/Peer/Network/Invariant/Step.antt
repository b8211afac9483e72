-- ===== src/Peer/Network/Invariant/Step.antt =====
-- That every step of the peers of `3186/peer.cpp` and the proxy keeps the invariant.
use zmqtests.Base.{
  ◌≡◌, sym, ◌∙◌, Bool, true, false, ◌||◌, List, [], ◌∷◌, ◌++◌, ◌==◌, arith, not, ap, inl, inr,
  Bool-cases,
}
use mathlib.Core.List.{append-nil, append_cancel_left}
use mathlib.Core.Path.{subst, subst₂}
use zmqtests.Base.Table.{Key}
use zmqtests.Zmq.{ConnectMsg, World, Env, Outcome, done}
use zmqtests.Peer.Table.{Peers, welcome_command, bytes_key}
use zmqtests.Peer.Issue3186.{peer_round}
use zmqtests.Peer.Issue3186.Run.{heard}
use zmqtests.Peer.Issue3186.Directory.{peers_after, is_own_goodbye}
use zmqtests.Peer.Network.{
  sent_on, goodbye, Network, after_turn, has_welcome, has_left, Step, join, link, round,
  takes_leave, lose, put,
}
use zmqtests.Peer.Network.Rounds.{due, farewell, greeting, answer}
use zmqtests.Peer.Network.Rounds.Whole.{exits, waits, reads, peer_round-Round}
use zmqtests.Peer.Network.Invariant.{Setting, sends, IsSound, uuid, stays, IsHonest, sends-turn}
use zmqtests.Peer.Network.Messages.{takes_leave-append}
use zmqtests.Base.Text.{str_eq_iff}
use zmqtests.Peer.Network.Invariant.Turning.{read-IsHonest}
use zmqtests.Peer.Network.Invariant.Losing.{losing-IsSound}
use zmqtests.Peer.Network.Invariant.Arriving.{joining-IsSound, linking-IsSound}
use zmqtests.Peer.Network.Invariant.Round.{exits-IsSound, waits-IsSound, reads-IsSound}

or_false : (a : Bool) → (a || false) ≡ a
or_false a = ground arith

module _ {A : Type 0} ⦃key : Key A⦄ (g : Setting A) (envs : A → Env) where
  abbrev pub due_of : Network A → A → Bool
  due_of c i = due (g.setups i) (envs i) (c.worlds i).calls

  -- What a round of `i` with the end `o` reads, publishes and leaves in its table.
  pub data Turned (i : A) (c : Network A) (o : Outcome Bool) (table : Peers)
      : List ConnectMsg → List ConnectMsg → Type 0 where
    at_once :
        due_of c i ≡ true
        → o ≡ done true
        → table ≡ (c.worlds i).vars
        → Turned i c o table [] (goodbye (g.setups i) ∷ [])
    unread :
        o ≡ done false
        → table ≡ (c.worlds i).vars
        → Turned i c o table []
            (farewell (g.setups i) (due_of c i) ++ greeting (g.setups i) (c.worlds i).vars)
    read :
        (m : ConnectMsg)
        → o ≡ done (is_own_goodbye (g.setups i) m (c.worlds i).vars)
        → table ≡ peers_after m (c.worlds i).vars
        → Turned i c o table (m ∷ []) (
            farewell (g.setups i) (due_of c i)
            ++ (greeting (g.setups i) (c.worlds i).vars ++ answer (g.setups i) m (c.worlds i).vars))

  module _ (i : A) (c : Network A) where
    abbrev pub outcome_of : Outcome Bool
    outcome_of = (peer_round (g.setups i) (envs i) (c.worlds i)).0

    abbrev pub behind : World Peers
    behind = (peer_round (g.setups i) (envs i) (c.worlds i)).1

    pub round-Turned :
        (got ms : List ConnectMsg)
        → heard (envs i) (g.setups i).proxy_sub behind.calls
          ≡ heard (envs i) (g.setups i).proxy_sub (c.worlds i).calls ++ got
        → sent_on (g.setups i).proxy_pub behind.calls ≡ sends g i c ++ ms
        → Turned i c outcome_of behind.vars got ms
    round-Turned got ms ear voice =
        let old = heard (envs i) (g.setups i).proxy_sub (c.worlds i).calls in
        let turned = Turned i c outcome_of behind.vars in
        let hears : (xs : List ConnectMsg)
            → heard (envs i) (g.setups i).proxy_sub behind.calls ≡ old ++ xs
            → xs ≡ got =
          λ xs q. append_cancel_left old xs got (sym q ∙ ear) in
        let says : (xs : List ConnectMsg)
            → sent_on (g.setups i).proxy_pub behind.calls ≡ sends g i c ++ xs
            → xs ≡ ms =
          λ xs q. append_cancel_left (sends g i c) xs ms (sym q ∙ voice) in
        elim (peer_round-Round (g.setups i) (g.fits i) (g.apart i) (envs i) (c.worlds i)) [
          | exits d o v h n ↦
              let a = hears [] (h ∙ sym (append-nil old)) in
              let b = says _ n in subst₂ turned a b (at_once d o v)
          | waits o v h n ↦
              let a = hears [] (h ∙ sym (append-nil old)) in
              let b = says _ n in subst₂ turned a b (unread o v)
          | reads m o v h n ↦
              let a = hears (m ∷ []) h in let b = says _ n in subst₂ turned a b (read m o v)
        ]

    Turned-IsSound :
        (o : Outcome Bool) (w : World Peers) (got ms box : List ConnectMsg)
        → c.inbox i ≡ got ++ box
        → sent_on (g.setups i).proxy_pub w.calls ≡ sends g i c ++ ms
        → IsSound g c
        → Turned i c o w.vars got ms
        → IsSound g (after_turn i w (c.welcomed i || has_welcome got) (has_left o) box ms c)
    unfolding has_welcome
    Turned-IsSound o w _ _ box inboxed voice s (at_once d q v) =
        subst (IsSound g)
          (λ t.
            after_turn i w (sym (or_false (c.welcomed i)) t) (has_left (sym q t)) (inboxed t)
              (goodbye (g.setups i) ∷ []) c)
          (exits-IsSound g c i (envs i) s w v voice)
    Turned-IsSound o w _ _ box inboxed voice s (unread q v) =
        subst (IsSound g)
          (λ t.
            after_turn i w (sym (or_false (c.welcomed i)) t) (has_left (sym q t)) (inboxed t)
              (farewell (g.setups i) (due_of c i) ++ greeting (g.setups i) (c.worlds i).vars) c)
          (waits-IsSound g c i (envs i) s w v voice)
    Turned-IsSound o w _ _ box inboxed voice s (read m q v) =
        subst
          (λ b. IsSound g (
            after_turn i w (c.welcomed i || b) (has_left o) box
              (farewell (g.setups i) (due_of c i)
                ++ (greeting (g.setups i) (c.worlds i).vars
                    ++ answer (g.setups i) m (c.worlds i).vars))
              c))
          (sym (or_false (m.command == welcome_command)))
          (reads-IsSound g c i (envs i) s w (has_left o) m box inboxed v voice)

    pub own_leave :
        (m : ConnectMsg)
        → is_own_goodbye (g.setups i) m (c.worlds i).vars ≡ true
        → IsHonest g (stays g c) m
        → stays g c i ≡ false
    own_leave m l (inl w) = ground (arith, l, ap (λ x. x.command) w)
    own_leave m l (inr (inl (j, w))) = ground (arith, l, ap (λ x. x.command) w)
    own_leave m l (inr (inr (j, w, e))) =
        let own : m.uuid ≡ uuid g i = ground (arith, l, str_eq_iff m.uuid (uuid g i)) in
        ap (stays g c) (g.distinct i j (sym own ∙ ap (λ x. x.uuid) w)) ∙ e

    -- A peer that leaves its loop has published its disconnect message.
    Turned-leaves :
        (o : Outcome Bool) (table : Peers) (got ms box : List ConnectMsg)
        → c.inbox i ≡ got ++ box
        → IsSound g c
        → Turned i c o table got ms
        → has_left o ≡ true
        → (takes_leave (sends g i c) || takes_leave ms) ≡ true
    unfolding takes_leave
    Turned-leaves o table _ _ box inboxed s (at_once d q v) l = ground arith
    Turned-leaves o table _ _ box inboxed s (unread q v) l = cc (l, ap has_left q)
    Turned-leaves o table _ _ box inboxed s (read m q v) l =
        let own : is_own_goodbye (g.setups i) m (c.worlds i).vars ≡ true =
          sym (ap has_left q) ∙ l in
        ground (arith, own_leave m own (read-IsHonest g c i m box inboxed s).0)

  -- The invariant, and that who has left its loop has published its disconnect message.
  pub record IsKept (c : Network A) : Type 0 where
    pub sound : IsSound g c
    pub left : (i : A) → c.gone i ≡ true → stays g c i ≡ false

  round-left :
      (i : A) (got ms box : List ConnectMsg) (c : Network A)
      → c.inbox i ≡ got ++ box
      → sent_on (g.setups i).proxy_pub (behind i c).calls ≡ sends g i c ++ ms
      → IsKept c
      → Turned i c (outcome_of i c) (behind i c).vars got ms
      → (k : A) → put i (has_left (outcome_of i c)) c.gone k ≡ true
      → stays g
          (after_turn i
            (behind i c)
            (c.welcomed i || has_welcome got)
            (has_left (outcome_of i c))
            box
            ms
            c)
          k
        ≡ false
  round-left i got ms box c inboxed voice s t k l =
      let d =
        after_turn i (behind i c) (c.welcomed i || has_welcome got) (has_left (outcome_of i c)) box
          ms c in
      let after =
        sends-turn g c i (behind i c) (c.welcomed i || has_welcome got) (has_left (outcome_of i c))
          box ms voice k in
      ap (λ x. not (takes_leave x)) after ∙ elim (Bool-cases (key.same k i)) [
        | inl same ↦
            let e : k ≡ i = (key.same_iff k i).0 same in
            ground (
              arith,
              l,
              same,
              ap (λ n. takes_leave (sends g n c)) e,
              takes_leave-append (sends g k c) ms,
              Turned-leaves i c (outcome_of i c) (behind i c).vars got ms box inboxed s.sound t,
            )
        | inr other ↦ ground (arith, l, other, s.left k)
      ]

  pub Step-IsKept :
      (c d : Network A)
      → Step g.setups envs g.lingers g.proxy_endpoint g.proxy_uuid c d
      → IsKept c
      → IsKept d
  Step-IsKept c _ (join i _ absent) s = record {
    sound = joining-IsSound g i c s.sound absent;
    left = s.left;
  }
  Step-IsKept c _ (link i _ asked) s = record {
    sound = linking-IsSound g i c s.sound asked;
    left = s.left;
  }
  Step-IsKept c _ (round i got ms box _ on inboxed ear voice) s =
      let t = round-Turned i c got ms ear voice in
      record {
        sound = Turned-IsSound i c (outcome_of i c) (behind i c) got ms box inboxed voice s.sound t;
        left = round-left i got ms box c inboxed voice s t;
      }
  Step-IsKept c _ (lose i k m before rest _ gone fast word there) s = record {
    sound = losing-IsSound g i k m before rest c word there (s.left i gone) fast s.sound;
    left = s.left;
  }
