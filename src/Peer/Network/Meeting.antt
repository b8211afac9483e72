-- ===== src/Peer/Network/Meeting.antt =====
-- That a peer of `3186/peer.cpp` meets itself through the proxy.
use zmqtests.Base.{
  ◌≡◌, ◌≢◌, ap, sym, ◌∙◌, inl, inr, Bool, true, false, not, ◌&&◌, ◌||◌, some, List, [], ◌++◌,
  if◌then◌else◌, Bool-cases, arith,
}
use mathlib.Core.Path.{subst}
use zmqtests.Base.Table.{Key, lookup}
use zmqtests.Base.Text.{Bytes, str_eq_iff}
use zmqtests.Zmq.{ConnectMsg, Env, Outcome}
use zmqtests.Peer.Table.{bytes_key, Peers, strings_fit}
use zmqtests.Peer.Issue3186.{Setup, peer_round}
use zmqtests.Peer.Issue3186.Run.{heard}
use zmqtests.Peer.Network.{
  sent_on, known, takes_leave, Network, after_turn, has_welcome, has_left, Step, join, link, round,
  lose, Reach, here, one_more,
}
use zmqtests.Peer.Network.Messages.{
  is_hello_of, told, told-append, takes_leave-append, known-peers_after,
}
use zmqtests.Peer.Network.Invariant.{Setting, uuid, sends, stays, IsSound, sends-turn}
use zmqtests.Peer.Network.Invariant.Turning.{read-IsHonest, known_read}
use zmqtests.Peer.Network.Invariant.Step.{
  Turned, at_once, unread, read, outcome_of, behind, round-Turned, IsKept, Step-IsKept,
}
use zmqtests.Peer.Network.Invariant.Losing.{told-losing}
use zmqtests.Peer.Network.Start.{IsStart, Reach-IsKept}
use zmqtests.Peer.Network.Agreement.{setting_of, learned, known_entry}

module _ {A : Type 0} ⦃key : Key A⦄ (g : Setting A) (envs : A → Env) where
  -- The peer stands in its own table, or its connect message is on its way to it.
  abbrev meets : Network A → A → Bool
  meets c i = known (uuid g i) (c.worlds i).vars || told (uuid g i) (c.inbox i)

  module _ (i : A) (c : Network A) (stay : takes_leave (sends g i c) ≡ false)
      (s : IsSound g c) where
    Turned-meets :
        (o : Outcome Bool) (table : Peers) (got ms box : List ConnectMsg)
        → c.inbox i ≡ got ++ box
        → Turned g envs i c o table got ms
        → meets c i ≡ true
        → (known (uuid g i) table || told (uuid g i) box) ≡ true
    unfolding told
    Turned-meets o table _ _ box inboxed (at_once d q v) l =
        ground (arith, l, ap (known (uuid g i)) v, ap (told (uuid g i)) inboxed)
    Turned-meets o table _ _ box inboxed (unread q v) l =
        ground (arith, l, ap (known (uuid g i)) v, ap (told (uuid g i)) inboxed)
    Turned-meets o table _ _ box inboxed (read m q v) l =
        let honest = (read-IsHonest g c i m box inboxed s).0 in
        let now : known (uuid g i) table
            ≡ (known (uuid g i) (c.worlds i).vars || is_hello_of (uuid g i) m) =
          ap (known (uuid g i)) v
          ∙ known-peers_after m (c.worlds i).vars (uuid g i)
          ∙ known_read g (stays g c) m honest i (known (uuid g i) (c.worlds i).vars)
              (ap not stay) in
        ground (arith, l, now, ap (told (uuid g i)) inboxed)

    -- A peer that does not know itself says its connect message.
    Turned-says :
        (o : Outcome Bool) (table : Peers) (got ms : List ConnectMsg)
        → Turned g envs i c o table got ms
        → takes_leave ms ≡ false
        → known (uuid g i) (c.worlds i).vars ≡ false
        → told (uuid g i) ms ≡ true
    unfolding told takes_leave
    Turned-says o table _ _ (at_once d q v) l n = ground (arith, l)
    Turned-says o table _ _ (unread q v) l n =
        ground (arith, l, n, str_eq_iff (uuid g i) (uuid g i))
    Turned-says o table _ _ (read m q v) l n =
        ground (arith, l, n, str_eq_iff (uuid g i) (uuid g i))

    module _ (got ms box : List ConnectMsg) (inboxed : c.inbox i ≡ got ++ box)
        (silent : takes_leave ms ≡ false)
        (t : Turned g envs i c (outcome_of g envs i c) (behind g envs i c).vars got ms) where
      abbrev after_round : Network A
      after_round =
          after_turn i (behind g envs i c) (c.welcomed i || has_welcome got)
            (has_left (outcome_of g envs i c)) box ms c

      abbrev own_words : List ConnectMsg
      own_words = if c.joined i && c.linked i then ms else []

      round-keeps : meets c i ≡ true → meets after_round i ≡ true
      round-keeps l = ground (
        arith,
        key.same_iff i i,
        told-append (uuid g i) box own_words,
        Turned-meets (outcome_of g envs i c) (behind g envs i c).vars got ms box inboxed t l,
      )

      round-makes : c.linked i ≡ true → meets after_round i ≡ true
      round-makes linked = elim (Bool-cases (known (uuid g i) (c.worlds i).vars)) [
        | inl yes_known ↦ round-keeps (ground (arith, yes_known))
        | inr not_yet ↦
            let there : c.joined i ≡ true = ground (arith, stay, linked, s.fair.entered i) in
            ground (
              arith,
              key.same_iff i i,
              linked,
              there,
              told-append (uuid g i) box own_words,
              Turned-says (outcome_of g envs i c) (behind g envs i c).vars got ms t silent not_yet,
            )
      ]

  -- What has been published stays published.
  still_silent :
      (i : A) (c d : Network A)
      → Step g.setups envs g.lingers g.proxy_endpoint g.proxy_uuid c d
      → takes_leave (sends g i d) ≡ false
      → takes_leave (sends g i c) ≡ false
  still_silent i c _ (join k _ absent) l = l
  still_silent i c _ (link k _ asked) l = l
  still_silent i c _ (lose k n m before rest _ gone fast word there) l = l
  still_silent i c _ (round k got ms box _ on inboxed ear voice) l = ground (
    arith,
    l,
    takes_leave-append (sends g i c) ms,
    sends-turn g c k (behind g envs k c) (c.welcomed k || has_welcome got)
        (has_left (outcome_of g envs k c)) box ms voice i,
  )

  own_silent :
      (i : A) (got ms box : List ConnectMsg) (c : Network A)
      → sent_on (g.setups i).proxy_pub (behind g envs i c).calls ≡ sends g i c ++ ms
      → takes_leave (
          sends g i (
            after_turn i
              (behind g envs i c)
              (c.welcomed i || has_welcome got)
              (has_left (outcome_of g envs i c))
              box
              ms
              c))
        ≡ false
      → (takes_leave (sends g i c) ≡ false) × (takes_leave ms ≡ false)
  own_silent i got ms box c voice l =
      let both : (takes_leave (sends g i c) || takes_leave ms) ≡ false =
        ground
          (arith, l, key.same_iff i i, ap takes_leave voice, takes_leave-append (sends g i c) ms) in
      (ground (arith, both), ground (arith, both))

  run-silent :
      (i : A) (c d : Network A)
      → Reach g.setups envs g.lingers g.proxy_endpoint g.proxy_uuid c d
      → takes_leave (sends g i d) ≡ false
      → takes_leave (sends g i c) ≡ false
  run-silent i c _ here l = l
  run-silent i c d (one_more {c = e} r step) l = run-silent i c e r (still_silent i e d step l)

  Step-meets :
      (i : A) (c d : Network A)
      → Step g.setups envs g.lingers g.proxy_endpoint g.proxy_uuid c d
      → IsKept g envs c
      → takes_leave (sends g i d) ≡ false
      → meets c i ≡ true
      → meets d i ≡ true
  unfolding told
  Step-meets i c _ (join k _ absent) s l m =
      ground (arith, m, key.same_iff i k, s.sound.waits k absent, ap c.inbox)
  Step-meets i c _ (link k _ asked) s l m = m
  Step-meets i c _ (lose k n x before rest _ gone fast word there) s l m = ground (
    arith,
    m,
    l,
    s.left k gone,
    told-losing g k n x before rest c word there i i,
    key.same_iff i k,
    ap (stays g c),
  )
  Step-meets i c d (round k got ms box _ on inboxed ear voice) s l m =
      elim (Bool-cases (key.same i k)) [
        | inl same ↦
            subst (λ n. takes_leave (sends g n d) ≡ false → meets c n ≡ true → meets d n ≡ true)
              (sym ((key.same_iff i k).0 same)) own l m
        | inr other ↦ ground (
          arith,
          m,
          other,
          told-append (uuid g i) (c.inbox i) (if c.joined i && c.linked k then ms else []),
        )
      ]
    where
      own : takes_leave (sends g k d) ≡ false → meets c k ≡ true → meets d k ≡ true
      own quiet h =
          let (stay, silent) = own_silent k got ms box c voice quiet in
          round-keeps k c stay s.sound got ms box inboxed silent
            (round-Turned g envs k c got ms ear voice) h

  run-meets :
      (i : A) (c d : Network A)
      → Reach g.setups envs g.lingers g.proxy_endpoint g.proxy_uuid c d
      → IsKept g envs c
      → takes_leave (sends g i d) ≡ false
      → meets c i ≡ true
      → IsKept g envs d × (meets d i ≡ true)
  run-meets i c _ here s l m = (s, m)
  run-meets i c d (one_more {c = e} r step) s l m =
      let (t, n) = run-meets i c e r s (still_silent i e d step l) m in
      (Step-IsKept g envs e d step t, Step-meets i e d step t l n)

-- Any number of peers start with empty tables, with nothing published and none of them subscribed
-- to the proxy. A subscription reaches the proxy and is answered by the welcome message; a peer that
-- has not left its loop makes a round, which reads the next message on its way or none; a
-- connection that the welcome message led to stands, and what the peer publishes from then on
-- reaches, in order, those who have subscribed; but a message of a peer that has left its loop and
-- does not linger can be lost on its way. The uuids are distinct, uuids and endpoints fit the
-- arrays of a `connectMsg`, and each peer has a socket for data apart from that for the proxy. Let a
-- peer whose connection stands make a round after any sequence of these steps. Then, however the
-- peers go on, if it has published no disconnect message and no message is on its way to it, it has
-- its own entry in its table, with the endpoint that it publishes at.
pub Reach-meets :
    {A : Type 0} ⦃key : Key A⦄ (setups : A → Setup)
    → ((i : A) → strings_fit (setups i).the_uuid (setups i).pub_endpoint ≡ true)
    → ((i j : A) → (setups i).the_uuid ≡ (setups j).the_uuid → i ≡ j)
    → ((i : A) → (setups i).data_sub ≢ (setups i).proxy_sub)
    → (envs : A → Env) (lingers : A → Bool) (proxy_endpoint proxy_uuid : Bytes)
      (from c d : Network A)
    → IsStart setups from
    → Reach setups envs lingers proxy_endpoint proxy_uuid from c
    → (i : A) (got ms box : List ConnectMsg) → c.linked i ≡ true
    → c.gone i ≡ false
    → c.inbox i ≡ got ++ box
    → heard (envs i) (setups i).proxy_sub (peer_round (setups i) (envs i) (c.worlds i)).1.calls
      ≡ heard (envs i) (setups i).proxy_sub (c.worlds i).calls ++ got
    → sent_on (setups i).proxy_pub (peer_round (setups i) (envs i) (c.worlds i)).1.calls
      ≡ sent_on (setups i).proxy_pub (c.worlds i).calls ++ ms
    → Reach setups envs lingers proxy_endpoint proxy_uuid
        (after_turn i
          (peer_round (setups i) (envs i) (c.worlds i)).1
          (c.welcomed i || has_welcome got)
          (has_left (peer_round (setups i) (envs i) (c.worlds i)).0)
          box
          ms
          c)
        d
    → takes_leave (sent_on (setups i).proxy_pub (d.worlds i).calls) ≡ false
    → d.inbox i ≡ []
    → lookup (setups i).the_uuid (d.worlds i).vars ≡ some (setups i).pub_endpoint
Reach-meets setups fits distinct apart envs lingers pe pu from c d b r i got ms box linked on
      inboxed ear voice onward silent empty =
    let g = setting_of setups fits distinct apart lingers pe pu in
    let s = Reach-IsKept g envs from c b r in
    let t = Step-IsKept g envs c _ (round i got ms box c on inboxed ear voice) s in
    let (stay, quiet) =
      own_silent g envs i got ms box c voice (run-silent g envs i _ d onward silent) in
    let start =
      round-makes g envs i c stay s.sound got ms box inboxed quiet
        (round-Turned g envs i c got ms ear voice) linked in
    let (kept, met) = run-meets g envs i _ d onward t silent start in
    known_entry g envs d kept.sound i i (sym (learned g envs d i (uuid g i) empty) ∙ met)
