-- ===== src/Peer/Issue3186/Links.antt =====
-- The connections of the data socket of `3186/peer.cpp` against the table of peers.
use zmqtests.Base.{
  ℕ, suc, ◌+◌, ◌≡◌, ◌≢◌, ap, sym, ◌∙◌, true, false, ◌&&◌, none, some, List, [], ◌∷◌, ◌==◌,
  if◌then◌else◌, Option-cases, inl, inr, arith,
}
use zmqtests.Base.Table.{
  lookup, insert, erase, held, one_if, held-insert, held-erase, IsUnique, insert-IsUnique,
  erase-IsUnique, lookup-insert, lookup-erase,
}
use zmqtests.Base.Text.{Bytes, str_eq, str_eq_iff}
use zmqtests.Zmq.{Addr, ConnectMsg, Call, zmq_recv, zmq_connect, zmq_disconnect, Env, World, done}
use zmqtests.Zmq.Rules.{IsDone}
use zmqtests.Peer.Table.{bytes_key, Peers, strings_fit}
use zmqtests.Peer.Issue3186.{
  Setup, is_on, handle_welcome, handle_connect, handle_disconnect, handle_msg,
}

-- How often the socket was connected to an endpoint, and disconnected from it.
abbrev add_open : Addr → Bytes → Call → ℕ → ℕ
add_open d e (zmq_connect s f) n = if s == d && str_eq f e then suc n else n
add_open d e c n = n

abbrev add_close : Addr → Bytes → Call → ℕ → ℕ
add_close d e (zmq_disconnect s f) n = if s == d && str_eq f e then suc n else n
add_close d e c n = n

unfoldable pub opened : Addr → Bytes → List Call → ℕ
opened d e [] = 0
opened d e (c ∷ cs) = add_open d e c (opened d e cs)

unfoldable pub closed : Addr → Bytes → List Call → ℕ
closed d e [] = 0
closed d e (c ∷ cs) = add_close d e c (closed d e cs)

-- The entries of the table with the endpoint `e`.
abbrev pub peers_at : Bytes → Peers → ℕ
peers_at e = held (λ f. str_eq f e)

-- The table has no uuid twice and each peer at the endpoint that it names, and every endpoint has
-- been connected to as often as it was disconnected from, and once more for each peer at it.
pub record IsLinked (d : Addr) (endpoint_of : Bytes → Bytes) (w : World Peers) : Type 0 where
  pub distinct : IsUnique w.vars
  pub named : (u e : Bytes) → lookup u w.vars ≡ some e → e ≡ endpoint_of u
  pub balance : (e : Bytes) → opened d e w.calls ≡ closed d e w.calls + peers_at e w.vars

-- Every message names the endpoint of its sender.
abbrev pub Names : Env → Addr → (Bytes → Bytes) → Type 0
Names env p endpoint_of =
    (cs : List Call)
    → (env cs (zmq_recv p)).connect_msg.endpoint
      ≡ endpoint_of (env cs (zmq_recv p)).connect_msg.uuid

abbrev IsNamed : (Bytes → Bytes) → Peers → Type 0
IsNamed endpoint_of m = (u e : Bytes) → lookup u m ≡ some e → e ≡ endpoint_of u

IsNamed-insert :
    (endpoint_of : Bytes → Bytes) (v f : Bytes) (m : Peers)
    → f ≡ endpoint_of v
    → IsNamed endpoint_of m
    → IsNamed endpoint_of (insert v f m)
IsNamed-insert endpoint_of v f m own n u e q =
    ground (arith, lookup-insert v u f m, n u e, str_eq_iff v u)

IsNamed-erase :
    (endpoint_of : Bytes → Bytes) (v : Bytes) (m : Peers)
    → IsNamed endpoint_of m
    → IsNamed endpoint_of (erase v m)
IsNamed-erase endpoint_of v m n u e q = ground (arith, lookup-erase v u m, n u e)

module _ (s : Setup) (fit : strings_fit s.the_uuid s.pub_endpoint ≡ true)
    (apart : s.proxy_pub ≢ s.data_sub) (single : is_on s.duplicate_disconnect ≡ false) (env : Env)
    (endpoint_of : Bytes → Bytes) where
  abbrev pub Linked : World Peers → Type 0
  Linked = IsLinked s.data_sub endpoint_of

  handle_connect-calls :
      (msg : ConnectMsg) (e : Bytes) (w : World Peers)
      → lookup msg.uuid w.vars ≡ none
      → (opened s.data_sub e (handle_connect s msg env w).1.calls
          ≡ opened s.data_sub e w.calls + one_if (str_eq msg.endpoint e))
        × (closed s.data_sub e (handle_connect s msg env w).1.calls ≡ closed s.data_sub e w.calls)
        × ((handle_connect s msg env w).1.vars ≡ insert msg.uuid msg.endpoint w.vars)
        × IsDone (handle_connect s msg env w).0
  unfolding handle_connect opened closed
  handle_connect-calls msg e w absent =
      (ground (arith, fit), ground (arith, fit), ground (arith, fit), ground (arith, fit))

  handle_connect_known :
      (msg : ConnectMsg) (w : World Peers) (e : Bytes)
      → lookup msg.uuid w.vars ≡ some e
      → handle_connect s msg env w ≡ (done false, w)
  unfolding handle_connect
  handle_connect_known msg w e known = ground arith

  handle_connect-Linked :
      (msg : ConnectMsg) (w : World Peers)
      → msg.endpoint ≡ endpoint_of msg.uuid
      → Linked w
      → Linked (handle_connect s msg env w).1 × IsDone (handle_connect s msg env w).0
  handle_connect-Linked msg w own l = elim (Option-cases (lookup msg.uuid w.vars)) [
    | inl absent ↦
        let (_, _, table, fine) = handle_connect-calls msg [] w absent in
        (
          record {
            distinct = rw table (insert-IsUnique msg.uuid msg.endpoint w.vars l.distinct);
            named = λ u e q.
                IsNamed-insert endpoint_of msg.uuid msg.endpoint w.vars own l.named u e
                  (rw table at q);
            balance = λ e.
                let (opens, closes, _, _) = handle_connect-calls msg e w absent in
                rw (opens, closes, table)
                  (omega (
                    arith,
                    l.balance e,
                    held-insert (λ f. str_eq f e) msg.uuid msg.endpoint w.vars absent,
                  ));
          },
          fine,
        )
    | inr (e, known) ↦ rw (handle_connect_known msg w e known) (l, tt)
  ]

  handle_disconnect-calls :
      (msg : ConnectMsg) (e f : Bytes) (w : World Peers)
      → lookup msg.uuid w.vars ≡ some f
      → (opened s.data_sub e (handle_disconnect s msg env w).1.calls ≡ opened s.data_sub e w.calls)
        × (closed s.data_sub e (handle_disconnect s msg env w).1.calls
            ≡ closed s.data_sub e w.calls + one_if (str_eq msg.endpoint e))
        × ((handle_disconnect s msg env w).1.vars ≡ erase msg.uuid w.vars)
        × IsDone (handle_disconnect s msg env w).0
  unfolding handle_disconnect opened closed
  handle_disconnect-calls msg e f w known = (ground arith, ground arith, ground arith, ground arith)

  handle_disconnect_unknown :
      (msg : ConnectMsg) (w : World Peers)
      → lookup msg.uuid w.vars ≡ none
      → handle_disconnect s msg env w ≡ (done false, w)
  unfolding handle_disconnect
  handle_disconnect_unknown msg w absent = ground arith

  handle_disconnect-Linked :
      (msg : ConnectMsg) (w : World Peers)
      → msg.endpoint ≡ endpoint_of msg.uuid
      → Linked w
      → Linked (handle_disconnect s msg env w).1 × IsDone (handle_disconnect s msg env w).0
  handle_disconnect-Linked msg w own l = elim (Option-cases (lookup msg.uuid w.vars)) [
    | inl absent ↦ rw (handle_disconnect_unknown msg w absent) (l, tt)
    | inr (f, known) ↦
        let (_, _, table, fine) = handle_disconnect-calls msg [] f w known in
        let same : f ≡ msg.endpoint = l.named msg.uuid f known ∙ sym own in
        (
          record {
            distinct = rw table (erase-IsUnique msg.uuid w.vars l.distinct);
            named = λ u e q. IsNamed-erase endpoint_of msg.uuid w.vars l.named u e (rw table at q);
            balance = λ e.
                let (opens, closes, _, _) = handle_disconnect-calls msg e f w known in
                rw (opens, closes, table)
                  (omega (
                    arith,
                    l.balance e,
                    ap (λ g. one_if (str_eq g e)) same,
                    held-erase (λ g. str_eq g e) msg.uuid f w.vars l.distinct known,
                  ));
          },
          fine,
        )
  ]

  -- A call that neither connects nor disconnects the data socket.
  handle_welcome-Linked :
      (msg : ConnectMsg) (w : World Peers)
      → Linked w
      → Linked (handle_welcome s msg env w).1 × IsDone (handle_welcome s msg env w).0
  unfolding handle_welcome opened closed
  handle_welcome-Linked msg w l = (
    record { distinct = l.distinct; named = l.named; balance = λ e. ground (arith, l.balance e) },
    tt,
  )

  pub handle_msg-Linked :
      (msg : ConnectMsg) (w : World Peers)
      → msg.endpoint ≡ endpoint_of msg.uuid
      → Linked w
      → Linked (handle_msg s msg env w).1 × IsDone (handle_msg s msg env w).0
  unfolding handle_msg
  handle_msg-Linked msg w own l = ground (
    arith,
    handle_welcome-Linked msg w l,
    handle_connect-Linked msg w own l,
    handle_disconnect-Linked msg w own l,
  )
