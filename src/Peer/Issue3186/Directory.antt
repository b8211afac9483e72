-- ===== src/Peer/Issue3186/Directory.antt =====
-- The table of peers of `3186/peer.cpp` as a directory: for each uuid, what the messages about
-- that uuid alone say.
use zmqtests.Base.{
  ◌≡◌, refl, ap, ◌∙◌, Bool, true, false, ◌&&◌, Option, none, some, List, [], ◌∷◌, ◌++◌, ◌==◌,
  if◌then◌else◌, Option-cases, inl, inr, arith,
}
use zmqtests.Base.Table.{lookup, insert, erase, lookup-insert, lookup-erase}
use zmqtests.Base.Text.{Bytes, str_eq, str_eq_iff}
use zmqtests.Zmq.{ConnectMsg, Env, World, done}
use zmqtests.Peer.Table.{bytes_key, Peers, strings_fit, connect_command, disconnect_command}
use zmqtests.Peer.Issue3186.{Setup, handle_welcome, handle_connect, handle_disconnect, handle_msg}

-- What one message says of the uuid `u`: a connect message gives a new peer its endpoint and
-- leaves a known one alone, a disconnect message removes it.
unfoldable pub track : Bytes → ConnectMsg → Option Bytes → Option Bytes
track u msg old =
    if str_eq msg.uuid u
    then (if msg.command == connect_command
        then (elim old [ none ↦ some msg.endpoint | some e ↦ some e ])
        else if msg.command == disconnect_command
        then none
        else old)
    else old

-- The messages of a list, from the first on.
unfoldable pub track_from : Bytes → Option Bytes → List ConnectMsg → Option Bytes
track_from u old [] = old
track_from u old (m ∷ ms) = track_from u (track u m old) ms

pub track_from-append :
    (u : Bytes) (old : Option Bytes) (ms : List ConnectMsg) (m : ConnectMsg)
    → track_from u old (ms ++ m ∷ []) ≡ track u m (track_from u old ms)
unfolding track_from
track_from-append u old [] m = refl
track_from-append u old (x ∷ ms) m = track_from-append u (track u x old) ms m

-- Whether a message ends the loop: the peer's own disconnect message, while it knows itself.
abbrev pub is_own_goodbye : Setup → ConnectMsg → Peers → Bool
is_own_goodbye s msg peers =
    (msg.command == disconnect_command)
    && str_eq msg.uuid s.the_uuid
    && (elim (lookup s.the_uuid peers) [ none ↦ false | some e ↦ true ])

-- The table after a message.
unfoldable pub peers_after : ConnectMsg → Peers → Peers
peers_after msg peers =
    if msg.command == connect_command
    then (elim (lookup msg.uuid peers) [
      | none ↦ insert msg.uuid msg.endpoint peers
      | some e ↦ peers
    ])
    else if msg.command == disconnect_command
    then (elim (lookup msg.uuid peers) [ none ↦ peers | some e ↦ erase msg.uuid peers ])
    else peers

pub lookup-peers_after :
    (msg : ConnectMsg) (peers : Peers) (u : Bytes)
    → lookup u (peers_after msg peers) ≡ track u msg (lookup u peers)
unfolding peers_after track
lookup-peers_after msg peers u = ground (
  arith,
  lookup-insert msg.uuid u msg.endpoint peers,
  lookup-erase msg.uuid u peers,
  str_eq_iff msg.uuid u,
)

module _ (s : Setup) (fit : strings_fit s.the_uuid s.pub_endpoint ≡ true) (env : Env) where
  handle_connect-vars :
      (msg : ConnectMsg) (w : World Peers)
      → (handle_connect s msg env w).1.vars ≡ (elim (lookup msg.uuid w.vars) [
        | none ↦ insert msg.uuid msg.endpoint w.vars
        | some e ↦ w.vars
      ])
  unfolding handle_connect
  handle_connect-vars msg w = ground (arith, fit)

  handle_disconnect-vars :
      (msg : ConnectMsg) (w : World Peers)
      → (handle_disconnect s msg env w).1.vars
        ≡ (elim (lookup msg.uuid w.vars) [ none ↦ w.vars | some e ↦ erase msg.uuid w.vars ])
  unfolding handle_disconnect
  handle_disconnect-vars msg w = elim (Option-cases (lookup msg.uuid w.vars)) [
    | inl absent ↦ rw absent (ground arith)
    | inr (e, known) ↦ rw known (ground arith)
  ]

  pub handle_msg-vars :
      (msg : ConnectMsg) (w : World Peers)
      → (handle_msg s msg env w).1.vars ≡ peers_after msg w.vars
  unfolding handle_msg handle_welcome peers_after
  handle_msg-vars msg w = ground (arith, handle_connect-vars msg w, handle_disconnect-vars msg w)

  pub handle_msg-leaves :
      (msg : ConnectMsg) (w : World Peers)
      → (handle_msg s msg env w).0 ≡ done (is_own_goodbye s msg w.vars)
  unfolding handle_msg handle_welcome handle_connect handle_disconnect
  handle_msg-leaves msg w = ground (arith, fit, str_eq_iff msg.uuid s.the_uuid)

-- A message changes the table, for every uuid, as the messages about that uuid alone say, and it
-- ends the loop exactly if it is the peer's own disconnect message and the peer knows itself.
-- This holds for every setting of the switches and whatever the calls reply; the condition is
-- that the peer's own uuid and endpoint fit the arrays of a `connectMsg`.
pub handle_msg-refines :
    (s : Setup) (env : Env)
    → strings_fit s.the_uuid s.pub_endpoint ≡ true
    → (msg : ConnectMsg) (w : World Peers)
    → ((u : Bytes) → lookup u (handle_msg s msg env w).1.vars ≡ track u msg (lookup u w.vars))
      × ((handle_msg s msg env w).0 ≡ done (is_own_goodbye s msg w.vars))
handle_msg-refines s env fit msg w = (
  λ u. ap (lookup u) (handle_msg-vars s fit env msg w) ∙ lookup-peers_after msg w.vars u,
  handle_msg-leaves s fit env msg w,
)
