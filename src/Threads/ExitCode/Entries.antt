-- ===== src/Threads/ExitCode/Entries.antt =====
-- Lemmas on the entries of the counters while messages are processed (`threads/common.h`).
use zmqtests.Base.{
  ℕ, ◌≡◌, refl, ◌∙◌, ◌↔◌, inl, inr, false, List, [], ◌∷◌, none, some, if◌then◌else◌, Bool-cases,
  arith,
}
use zmqtests.Base.Int.{pos}
use zmqtests.Base.Table.{
  lookup, insert, at, touch, lookup-insert, IsUnique, AllValues, insert-IsUnique, touch-IsUnique,
}
use zmqtests.Zmq.{Addr, ControlMsg}
use zmqtests.Threads.Globals.{addr_key, Globals, Counters}
use zmqtests.Threads.Control.{process_control_msg}
use zmqtests.Threads.Results.{any_differs, exit_code}
use zmqtests.Threads.Detection.{process_all, numbers, numbers-cons, received, is_ping_of}

pub any_differs-eq-false :
    (n : ℕ) (m : Counters) → (any_differs (pos n) m ≡ false) ↔ AllValues (λ _ v. v ≡ n) m
unfolding any_differs
any_differs-eq-false n [] = (λ _. tt, λ _. refl)
any_differs-eq-false n ((t, k) ∷ m) =
    let ih = any_differs-eq-false n m in
    (λ e. (ground arith, ih.0 (ground arith)), λ a. ground (arith, a.0, ih.1 a.1))

-- The entry of a thread after a message.
lookup-process_control_msg :
    (g : Globals) (m : ControlMsg) (t : Addr)
    → lookup t (process_control_msg g m).max_control_msg_received ≡ (
        if is_ping_of t m
        then some (received t (process_control_msg g m))
        else lookup t g.max_control_msg_received)
unfolding process_control_msg at touch
lookup-process_control_msg g m t =
    let old = g.max_control_msg_received in
    let u = m.void_arg in
    ground (
      arith,
      lookup-insert u t m.long_arg (touch 0 u old),
      lookup-insert u u m.long_arg (touch 0 u old),
      lookup-insert u t m.long_arg old,
      lookup-insert u t m.long_arg (insert u 0 old),
      lookup-insert u t 0 old,
    )

process_control_msg-IsUnique :
    (g : Globals) (m : ControlMsg)
    → IsUnique g.max_control_msg_received
    → IsUnique (process_control_msg g m).max_control_msg_received
unfolding process_control_msg
process_control_msg-IsUnique g m u = ground (
  arith,
  touch-IsUnique 0 m.void_arg g.max_control_msg_received u,
  insert-IsUnique m.void_arg m.long_arg (touch 0 m.void_arg g.max_control_msg_received),
)

pub process_all-IsUnique :
    (g : Globals) (ms : List ControlMsg)
    → IsUnique g.max_control_msg_received
    → IsUnique (process_all g ms).max_control_msg_received
unfolding process_all
process_all-IsUnique g [] u = u
process_all-IsUnique g (m ∷ ms) u =
    process_all-IsUnique (process_control_msg g m) ms (process_control_msg-IsUnique g m u)

-- A thread with an entry keeps one; a thread with no entry and no ping gets none.
pub lookup-process_all-some :
    (g : Globals) (ms : List ControlMsg) (t : Addr) (v : ℕ)
    → lookup t g.max_control_msg_received ≡ some v
    → lookup t (process_all g ms).max_control_msg_received ≡ some (received t (process_all g ms))
unfolding process_all at
lookup-process_all-some g [] t v e = ground arith
lookup-process_all-some g (m ∷ ms) t v e = elim (Bool-cases (is_ping_of t m)) [
  | inl mine ↦
      lookup-process_all-some (process_control_msg g m) ms t (received t (process_control_msg g m))
        (lookup-process_control_msg g m t ∙ rw mine)
  | inr other ↦
      lookup-process_all-some (process_control_msg g m) ms t v
        (lookup-process_control_msg g m t ∙ rw other e)
]

pub lookup-process_all-none :
    (g : Globals) (ms : List ControlMsg) (t : Addr)
    → lookup t g.max_control_msg_received ≡ none
    → numbers t ms ≡ []
    → lookup t (process_all g ms).max_control_msg_received ≡ none
unfolding process_all
lookup-process_all-none g [] t e q = e
lookup-process_all-none g (m ∷ ms) t e q = elim (Bool-cases (is_ping_of t m)) [
  | inl mine ↦ absurd (ground (arith, numbers-cons t m ms))
  | inr other ↦
      lookup-process_all-none (process_control_msg g m) ms t
        (lookup-process_control_msg g m t ∙ rw other e) (ground (arith, numbers-cons t m ms))
]

pub process_all-num_msgs :
    (g : Globals) (ms : List ControlMsg) → (process_all g ms).num_msgs ≡ g.num_msgs
unfolding process_all process_control_msg
process_all-num_msgs g [] = refl
process_all-num_msgs g (m ∷ ms) = process_all-num_msgs (process_control_msg g m) ms ∙ ground arith

pub process_all-sent :
    (g : Globals) (ms : List ControlMsg)
    → (process_all g ms).max_control_msg_sent ≡ g.max_control_msg_sent
unfolding process_all process_control_msg
process_all-sent g [] = refl
process_all-sent g (m ∷ ms) = process_all-sent (process_control_msg g m) ms ∙ ground arith

pub exit_code-eq-zero :
    (g : Globals) (n : ℕ)
    → g.num_msgs ≡ pos n
    → (exit_code g ≡ 0) ↔ (
        (g.failed ≡ false)
        × AllValues (λ _ v. v ≡ n) g.max_control_msg_sent
        × AllValues (λ _ v. v ≡ n) g.max_control_msg_received)
unfolding exit_code
exit_code-eq-zero g n e =
    let sent = any_differs-eq-false n g.max_control_msg_sent in
    let got = any_differs-eq-false n g.max_control_msg_received in
    (
      λ z. (ground arith, sent.0 (ground arith), got.0 (ground arith)),
      λ h. ground (arith, h.0, sent.1 h.1, got.1 h.2),
    )

pub received_of_lookup :
    (g : Globals) (t : Addr) (v : ℕ)
    → lookup t g.max_control_msg_received ≡ some v
    → received t g ≡ v
unfolding at
received_of_lookup g t v e = ground arith

pub received_of_none :
    (g : Globals) (t : Addr) → lookup t g.max_control_msg_received ≡ none → received t g ≡ 0
unfolding at
received_of_none g t e = ground arith
