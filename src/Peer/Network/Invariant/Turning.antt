-- ===== src/Peer/Network/Invariant/Turning.antt =====
-- That each part of a round keeps the invariant.
use zmqtests.Base.{
  ◌≡◌, ◌≢◌, refl, ap, sym, ◌∙◌, ◌⊎◌, inl, inr, Bool, true, false, not, ◌||◌, Option, some, List,
  ◌∷◌, ◌++◌, ◌==◌, Bool-cases, arith,
}
use mathlib.Core.Path.{subst}
use zmqtests.Base.Table.{Key, lookup}
use zmqtests.Base.Text.{Bytes, str_eq_iff}
use zmqtests.Zmq.{ConnectMsg, World}
use zmqtests.Peer.Table.{bytes_key, Peers, connect_command, disconnect_command, welcome_command}
use zmqtests.Peer.Issue3186.Directory.{track, peers_after, lookup-peers_after}
use zmqtests.Peer.Network.{sent_on, known, Network, after_turn}
use zmqtests.Peer.Network.Rounds.{farewell, greeting, answers, answer}
use zmqtests.Peer.Network.Messages.{is_hello_of, told, keeps, expected, known-peers_after}
use zmqtests.Peer.Network.Invariant.{
  Setting, uuid, sends, stays, IsHonest, AllHonest, IsTrue, IsSound,
}
use zmqtests.Peer.Network.Invariant.Saying.{said, after-IsSound}
use zmqtests.Peer.Network.Invariant.Leaving.{gone-IsSound}

-- An entry behind a message was there before it, or is that of a connect message.
track_where :
    (u e : Bytes) (m : ConnectMsg) (old : Option Bytes)
    → track u m old ≡ some e
    → (old ≡ some e) ⊎ ((m.command ≡ connect_command) × (u ≡ m.uuid) × (e ≡ m.endpoint))
unfolding track
track_where u e m old q = ground (arith, str_eq_iff m.uuid u)

connect_no_welcome : connect_command ≢ welcome_command
connect_no_welcome = ground arith

connect_no_disconnect : connect_command ≢ disconnect_command
connect_no_disconnect = ground arith

module _ {A : Type 0} ⦃key : Key A⦄ (g : Setting A) where
  -- A turn in which a peer reads nothing.
  module _ (c : Network A) (i : A) (w : World Peers) (leaves : Bool)
      (table : w.vars ≡ (c.worlds i).vars) (s : IsSound g c) where
    says-IsSound :
        (says : Bool)
        → sent_on (g.setups i).proxy_pub w.calls ≡ sends g i c ++ said g i says
        → IsSound g (after_turn i w (c.welcomed i) leaves (c.inbox i) (said g i says) c)
    says-IsSound says voice =
        after-IsSound g c i w (c.welcomed i) leaves says (c.inbox i) (λ j. false) voice
          (λ j l. ground (arith, ap (known (uuid g j)) table)) (λ j l. refl)
          (λ j. ap (λ v. expected (uuid g j) (known (uuid g j) v) (c.inbox i)) table) (s.greeted i)
          (λ j l h n k. cc) (s.waits i) (λ j l. ap (known (uuid g j)) table ∙ s.fresh i j l)
          (s.honest i) (rw table (s.true_entries i)) s

    pub bid-IsSound :
        (is_due : Bool)
        → sent_on (g.setups i).proxy_pub w.calls ≡ sends g i c ++ farewell (g.setups i) is_due
        → IsSound g
            (after_turn i w (c.welcomed i) leaves (c.inbox i) (farewell (g.setups i) is_due) c)
    bid-IsSound true voice = gone-IsSound g c i w leaves voice table s
    bid-IsSound false voice = says-IsSound false voice

    pub greet-IsSound :
        sent_on (g.setups i).proxy_pub w.calls
          ≡ sends g i c ++ greeting (g.setups i) (c.worlds i).vars
        → IsSound g (
            after_turn i w
              (c.welcomed i)
              leaves
              (c.inbox i)
              (greeting (g.setups i) (c.worlds i).vars)
              c)
    greet-IsSound voice =
        let own : greeting (g.setups i) (c.worlds i).vars
            ≡ said g i (not (known (uuid g i) (c.worlds i).vars)) =
          ground arith in
        rw own (
          says-IsSound (not (known (uuid g i) (c.worlds i).vars))
            (voice ∙ ap (λ l. sends g i c ++ l) own))

  peers_after-IsTrue :
      (staying : A → Bool) (m : ConnectMsg) (peers : Peers)
      → IsHonest g staying m
      → IsTrue g peers
      → IsTrue g (peers_after m peers)
  peers_after-IsTrue staying m peers h t u e q =
      elim (track_where u e m (lookup u peers) (sym (lookup-peers_after m peers u) ∙ q)) [
        | inl old ↦ t u e old
        | inr (c, v, f) ↦ elim h [
          | inl w ↦ elim (connect_no_welcome (sym c ∙ ap (λ x. x.command) w)) [ ]
          | inr (inl (j, w)) ↦ (j, v ∙ ap (λ x. x.uuid) w, f ∙ ap (λ x. x.endpoint) w)
          | inr (inr (j, w, l)) ↦ elim (connect_no_disconnect (sym c ∙ ap (λ x. x.command) w)) [ ]
        ]
      ]

  -- A message that is read leaves the entries of those who stay.
  pub known_read :
      (staying : A → Bool) (m : ConnectMsg)
      → IsHonest g staying m
      → (j : A) (b : Bool) → staying j ≡ true
      → keeps (uuid g j) m b ≡ (b || is_hello_of (uuid g j) m)
  known_read staying m (inl w) j b stay = rw w (ground arith)
  known_read staying m (inr (inl (k, w))) j b stay = rw w (ground arith)
  known_read staying m (inr (inr (k, w, l))) j b stay =
      rw w (ground (arith, stay, l, str_eq_iff (uuid g k) (uuid g j), g.distinct k j, ap staying))

  pub read-IsHonest :
      (c : Network A) (i : A) (m : ConnectMsg) (box : List ConnectMsg)
      → c.inbox i ≡ m ∷ box
      → IsSound g c
      → IsHonest g (stays g c) m × AllHonest g (stays g c) box
  unfolding AllHonest
  read-IsHonest c i m box read s = subst (AllHonest g (stays g c)) read (s.honest i)

  module _ (c : Network A) (i : A) (w : World Peers) (leaves : Bool) (m : ConnectMsg)
      (box : List ConnectMsg) (read : c.inbox i ≡ m ∷ box)
      (table : w.vars ≡ peers_after m (c.worlds i).vars) (s : IsSound g c) where
    occupied : c.joined i ≡ true
    occupied = elim (Bool-cases (c.joined i)) [
      | inl there ↦ there
      | inr absent ↦ cc (read, s.waits i absent)
    ]

    -- A peer that hears of another for the first time answers.
    replies :
        (j : A)
        → is_hello_of (uuid g j) m ≡ true
        → key.same j i ≡ false
        → known (uuid g j) (c.worlds i).vars ≡ false
        → answers (g.setups i) m (c.worlds i).vars ≡ true
    replies j l n k = ground (
      arith,
      l,
      n,
      k,
      str_eq_iff m.uuid (uuid g j),
      str_eq_iff m.uuid (uuid g i),
      g.distinct j i,
      key.same_iff j i,
    )

    pub hear-IsSound :
        sent_on (g.setups i).proxy_pub w.calls
          ≡ sends g i c ++ answer (g.setups i) m (c.worlds i).vars
        → IsSound g (
            after_turn i w
              (c.welcomed i || (m.command == welcome_command))
              leaves
              box
              (answer (g.setups i) m (c.worlds i).vars)
              c)
    unfolding told expected
    hear-IsSound voice =
        let peers = (c.worlds i).vars in
        let behind =
          λ (j : A). ap (known (uuid g j)) table ∙ known-peers_after m peers (uuid g j) in
        after-IsSound g c i w (c.welcomed i || (m.command == welcome_command)) leaves
          (answers (g.setups i) m peers) box (λ j. is_hello_of (uuid g j) m) voice
          (λ j l.
            behind j
            ∙ known_read (stays g c) m (read-IsHonest c i m box read s).0 j (known (uuid g j) peers)
                l)
          (λ j l. ap (told (uuid g j)) read)
          (λ j.
            ap (λ b. expected (uuid g j) b box) (behind j)
            ∙ ap (expected (uuid g j) (known (uuid g j) peers)) (sym read))
          (λ l. occupied) (λ j l h n k. replies j h n k) (λ no_one. cc (no_one, occupied))
          (λ j no_one. cc (no_one, occupied)) (read-IsHonest c i m box read s).1
          (rw table (
            peers_after-IsTrue (stays g c) m peers (read-IsHonest c i m box read s).0
              (s.true_entries i)))
          s
