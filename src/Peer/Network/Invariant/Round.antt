-- ===== src/Peer/Network/Invariant/Round.antt =====
-- That a whole round keeps the invariant.
use zmqtests.Base.{
  ◌≡◌, refl, ap, sym, ◌∙◌, Bool, true, false, ◌||◌, List, [], ◌∷◌, ◌++◌, ◌==◌, arith,
}
use mathlib.Core.List.{append-nil, append_assoc}
use mathlib.Core.Path.{subst}
use zmqtests.Base.Table.{Key}
use zmqtests.Zmq.{ConnectMsg, World, Env, zmq_send, connect, no_flag}
use zmqtests.Peer.Table.{bytes_key, Peers, welcome_command}
use zmqtests.Peer.Issue3186.{Setup}
use zmqtests.Peer.Issue3186.Directory.{peers_after}
use zmqtests.Peer.Network.{sent_on, goodbye, Network, after_turn}
use zmqtests.Peer.Network.Rounds.{due, farewell, greeting, answer}
use zmqtests.Peer.Network.Turns.{put_same, reaching, turn-turn}
use zmqtests.Peer.Network.Invariant.{Setting, sends, IsSound}
use zmqtests.Peer.Network.Invariant.Turning.{bid-IsSound, greet-IsSound, hear-IsSound}

-- The world of a peer that has published `ms`.
unfoldable voiced : Setup → List ConnectMsg → World Peers → World Peers
voiced s [] w = w
voiced s (m ∷ ms) w =
    voiced s ms (record w { calls = zmq_send s.proxy_pub (connect m) no_flag ∷ w.calls })

voiced-sends :
    (s : Setup) (ms : List ConnectMsg) (w : World Peers)
    → sent_on s.proxy_pub (voiced s ms w).calls ≡ sent_on s.proxy_pub w.calls ++ ms
unfolding sent_on voiced
voiced-sends s [] w = sym (append-nil (sent_on s.proxy_pub w.calls))
voiced-sends s (m ∷ ms) w =
    let w1 = record w { calls = zmq_send s.proxy_pub (connect m) no_flag ∷ w.calls } in
    let one : sent_on s.proxy_pub w1.calls ≡ sent_on s.proxy_pub w.calls ++ m ∷ [] = ground arith in
    voiced-sends s ms w1
    ∙ ap (λ l. l ++ ms) one
    ∙ append_assoc (sent_on s.proxy_pub w.calls) (m ∷ []) ms

voiced-vars : (s : Setup) (ms : List ConnectMsg) (w : World Peers) → (voiced s ms w).vars ≡ w.vars
unfolding voiced
voiced-vars s [] w = refl
voiced-vars s (m ∷ ms) w =
    voiced-vars s ms (record w { calls = zmq_send s.proxy_pub (connect m) no_flag ∷ w.calls })

module _ {A : Type 0} ⦃key : Key A⦄ (g : Setting A) (c : Network A) (i : A) where
  abbrev own : Setup
  own = g.setups i

  -- A turn of `i` so far, in which it has published `xs`.
  abbrev so_far : World Peers → List ConnectMsg → Network A
  so_far w xs = after_turn i w (c.welcomed i) false (c.inbox i) xs c

  module _ (w w' : World Peers) (xs : List ConnectMsg) (leaves : Bool) (peers : Peers)
      (now : w.vars ≡ peers) (s : IsSound g (so_far w xs)) where
    abbrev there : (so_far w xs).worlds i ≡ w
    there = put_same i w c.worlds

    abbrev then_there : (so_far w xs).inbox i ≡ c.inbox i ++ reaching c i i xs
    then_there = ap (λ b. b ++ reaching c i i xs) (put_same i (c.inbox i) c.inbox)

    greet_behind :
        w'.vars ≡ peers
        → sent_on own.proxy_pub w'.calls ≡ sent_on own.proxy_pub w.calls ++ greeting own peers
        → IsSound g (after_turn i w' (c.welcomed i) leaves (c.inbox i) (xs ++ greeting own peers) c)
    greet_behind table voice =
        let d = so_far w xs in
        let same_table : (d.worlds i).vars ≡ peers = ap (λ x. x.vars) there ∙ now in
        subst (IsSound g)
          (turn-turn c i w w' (c.welcomed i) false (d.welcomed i) leaves (c.inbox i) (c.inbox i)
              (d.inbox i) xs (greeting own (d.worlds i).vars) then_there
            ∙ (λ t.
                after_turn i w' (put_same i (c.welcomed i) c.welcomed t) leaves (c.inbox i)
                  (xs ++ greeting own (same_table t)) c))
          (greet-IsSound g d i w' leaves (table ∙ sym same_table) s (
            voice
            ∙ ap (λ x. sent_on own.proxy_pub x.calls ++ greeting own peers) (sym there)
            ∙ ap (λ v. sends g i d ++ greeting own v) (sym same_table)))

    hear_behind :
        (m : ConnectMsg) (box : List ConnectMsg)
        → c.inbox i ≡ m ∷ box
        → w'.vars ≡ peers_after m peers
        → sent_on own.proxy_pub w'.calls ≡ sent_on own.proxy_pub w.calls ++ answer own m peers
        → IsSound g (
            after_turn i w'
              (c.welcomed i || (m.command == welcome_command))
              leaves
              box
              (xs ++ answer own m peers)
              c)
    hear_behind m box read table voice =
        let d = so_far w xs in
        let same_table : (d.worlds i).vars ≡ peers = ap (λ x. x.vars) there ∙ now in
        let rest = box ++ reaching c i i xs in
        subst (IsSound g)
          (turn-turn c i w w' (c.welcomed i) false (d.welcomed i || (m.command == welcome_command))
              leaves (c.inbox i) box rest xs (answer own m (d.worlds i).vars) refl
            ∙ (λ t.
                after_turn i w'
                  (put_same i (c.welcomed i) c.welcomed t || (m.command == welcome_command)) leaves
                  box (xs ++ answer own m (same_table t)) c))
          (hear-IsSound g d i w' leaves m rest (then_there ∙ ap (λ l. l ++ reaching c i i xs) read)
            (table ∙ ap (peers_after m) (sym same_table)) s
            (voice
              ∙ ap (λ x. sent_on own.proxy_pub x.calls ++ answer own m peers) (sym there)
              ∙ ap (λ v. sends g i d ++ answer own m v) (sym same_table)))

  -- The three ways of a round.
  module _ (env : Env) (s : IsSound g c) where
    abbrev table_of : Peers
    table_of = (c.worlds i).vars

    abbrev bids : List ConnectMsg
    bids = farewell own (due own env (c.worlds i).calls)

    abbrev bidden : World Peers
    bidden = voiced own bids (c.worlds i)

    bidden-IsSound : IsSound g (so_far bidden bids)
    bidden-IsSound =
        bid-IsSound g c i bidden false (voiced-vars own bids (c.worlds i)) s
          (due own env (c.worlds i).calls) (voiced-sends own bids (c.worlds i))

    pub exits-IsSound :
        (w : World Peers)
        → w.vars ≡ table_of
        → sent_on own.proxy_pub w.calls ≡ sends g i c ++ goodbye own ∷ []
        → IsSound g (after_turn i w (c.welcomed i) true (c.inbox i) (goodbye own ∷ []) c)
    exits-IsSound w table voice = bid-IsSound g c i w true table s true voice

    pub waits-IsSound :
        (w : World Peers)
        → w.vars ≡ table_of
        → sent_on own.proxy_pub w.calls ≡ sends g i c ++ (bids ++ greeting own table_of)
        → IsSound g
            (after_turn i w (c.welcomed i) false (c.inbox i) (bids ++ greeting own table_of) c)
    waits-IsSound w table voice =
        greet_behind bidden w bids false table_of (voiced-vars own bids (c.worlds i)) bidden-IsSound
          table
          (voice
            ∙ sym (append_assoc (sends g i c) bids (greeting own table_of))
            ∙ ap (λ l. l ++ greeting own table_of) (sym (voiced-sends own bids (c.worlds i))))

    pub reads-IsSound :
        (w : World Peers) (leaves : Bool) (m : ConnectMsg) (box : List ConnectMsg)
        → c.inbox i ≡ m ∷ box
        → w.vars ≡ peers_after m table_of
        → sent_on own.proxy_pub w.calls
          ≡ sends g i c ++ (bids ++ (greeting own table_of ++ answer own m table_of))
        → IsSound g (
            after_turn i w
              (c.welcomed i || (m.command == welcome_command))
              leaves
              box
              (bids ++ (greeting own table_of ++ answer own m table_of))
              c)
    reads-IsSound w leaves m box read table voice =
        let hi = greeting own table_of in
        let spoken = voiced own hi bidden in
        let re = answer own m table_of in
        let known_table = voiced-vars own hi bidden ∙ voiced-vars own bids (c.worlds i) in
        let said : sent_on own.proxy_pub spoken.calls ≡ sends g i c ++ (bids ++ hi) =
          voiced-sends own hi bidden
          ∙ ap (λ l. l ++ hi) (voiced-sends own bids (c.worlds i))
          ∙ append_assoc (sends g i c) bids hi in
        subst
          (λ l.
            IsSound g
              (after_turn i w (c.welcomed i || (m.command == welcome_command)) leaves box l c))
          (append_assoc bids hi re)
          (hear_behind spoken w (bids ++ hi) leaves table_of known_table
            (greet_behind bidden spoken bids false table_of (voiced-vars own bids (c.worlds i))
              bidden-IsSound known_table (voiced-sends own hi bidden))
            m box read table
            (voice
              ∙ ap (λ l. sends g i c ++ l) (sym (append_assoc bids hi re))
              ∙ sym (append_assoc (sends g i c) (bids ++ hi) re)
              ∙ ap (λ l. l ++ re) (sym said)))
