-- ===== src/Threads/Schedule/Order.antt =====
-- Where the pings of a thread are while the threads run (`threads/common.h`).
use zmqtests.Base.{
  ℕ, zero, suc, ◌+◌, ◌≡◌, refl, ap, ◌∙◌, inl, inr, true, false, List, [], ◌∷◌, ◌++◌, ◌==◌,
  if◌then◌else◌, Bool-cases, ==_iff, length, length-append, arith,
}
use mathlib.Core.List.{append_assoc, append-nil}
use zmqtests.Base.Table.{at, at-insert}
use zmqtests.Zmq.{Addr, ControlMsg}
use zmqtests.Threads.Globals.{addr_key}
use zmqtests.Threads.Control.{process_control_msg}
use zmqtests.Threads.Sending.{next_msg_num, count_sent}
use zmqtests.Threads.Sending.Sequence.{ping}
use zmqtests.Threads.Detection.{numbers, numbers-cons, is_ping_of, count_from}
use zmqtests.Threads.Schedule.{
  Config, Step, send, receive, lose, shut, exit_msg, after_send, after_receive, after_loss,
  after_shutdown,
}

numbers-append :
    (t : Addr) (xs ys : List ControlMsg) → numbers t (xs ++ ys) ≡ numbers t xs ++ numbers t ys
unfolding numbers
numbers-append t [] ys = refl
numbers-append t (x ∷ xs) ys = ground (arith, numbers-append t xs ys)

numbers-ping : (t u : Addr) (k : ℕ) → numbers t (ping u k ∷ []) ≡ (if u == t then k ∷ [] else [])
unfolding numbers
numbers-ping t u k = ground arith

count_from-snoc : (k n : ℕ) → count_from k n ++ suc (k + n) ∷ [] ≡ count_from k (suc n)
unfolding count_from
count_from-snoc k zero = ground arith
count_from-snoc k (suc n) = ground (arith, count_from-snoc (suc k) n)

abbrev pub sent_of : Addr → Config → ℕ
sent_of t c = at 0 t c.globals.max_control_msg_sent

-- Every ping of the thread is in one of the three places; and when none is lost, the ones that have
-- arrived and the ones on their way are 1, 2, … in this order.
pub record IsKept (t : Addr) (c : Config) : Type 0 where
  pub count :
      length (numbers t c.arrived) + length (numbers t c.queue) + length (numbers t c.lost)
      ≡ sent_of t c
  pub order :
      numbers t c.lost ≡ [] → numbers t c.arrived ++ numbers t c.queue ≡ count_from 0 (sent_of t c)

sent_of-process :
    (t : Addr) (m : ControlMsg) (c : Config)
    → at 0 t (process_control_msg c.globals m).max_control_msg_sent ≡ sent_of t c
unfolding process_control_msg
sent_of-process t m c = ground arith

sent_of-count :
    (t u : Addr) (c : Config)
    → at 0 t (count_sent c.globals u).max_control_msg_sent
      ≡ (if u == t then suc (sent_of t c) else sent_of t c)
unfolding count_sent next_msg_num
sent_of-count t u c =
    ground (arith, at-insert 0 u t (next_msg_num c.globals u) c.globals.max_control_msg_sent)

abbrev next : Addr → Config → ℕ
next u c = next_msg_num c.globals u

send-own : (t : Addr) (c : Config) → IsKept t c → IsKept t (after_send t c)
unfolding next_msg_num
send-own t c k =
    let q = numbers-append t c.queue (ping t (next t c) ∷ []) in
    let p = numbers-ping t t (next t c) in
    let n = sent_of-count t t c in
    record {
      count = ground (arith, k.count, n, q, p, length-append (numbers t c.queue) (next t c ∷ []));
      order = λ e. ground (
        arith,
        k.order e,
        n,
        q,
        p,
        count_from-snoc 0 (sent_of t c),
        append_assoc (numbers t c.arrived) (numbers t c.queue) (next t c ∷ []),
      );
    }

send-other : (t u : Addr) (c : Config) → (u == t) ≡ false → IsKept t c → IsKept t (after_send u c)
send-other t u c other k =
    let q = numbers-append t c.queue (ping u (next u c) ∷ []) in
    let p = numbers-ping t u (next u c) in
    let n = sent_of-count t u c in
    record {
      count = ground (arith, k.count, n, q, p, append-nil (numbers t c.queue));
      order = λ e. ground (arith, k.order e, n, q, p, append-nil (numbers t c.queue));
    }

numbers-snoc :
    (t : Addr) (ms : List ControlMsg) (m : ControlMsg)
    → numbers t (ms ++ m ∷ [])
      ≡ (if is_ping_of t m then numbers t ms ++ m.long_arg ∷ [] else numbers t ms)
unfolding numbers
numbers-snoc t ms m =
    grind (arith, numbers-append t ms (m ∷ []), numbers-cons t m [], append-nil (numbers t ms))

-- A message that is taken out of the queue.
numbers-taken :
    (t : Addr) (before after : List ControlMsg) (m : ControlMsg) (c : Config)
    → c.queue ≡ before ++ m ∷ after
    → numbers t c.queue
      ≡ numbers t before
        ++ (if is_ping_of t m then m.long_arg ∷ numbers t after else numbers t after)
numbers-taken t before after m c e =
    ap (numbers t) e
    ∙ numbers-append t before (m ∷ after)
    ∙ ap (λ v. numbers t before ++ v) (numbers-cons t m after)

module _ (t : Addr) (before after : List ControlMsg) (m : ControlMsg) (c : Config)
    (e : c.queue ≡ before ++ m ∷ after) (k : IsKept t c) where
  receive-IsKept :
      (is_ping_of t m ≡ true → numbers t before ≡ []) → IsKept t (after_receive before m after c)
  receive-IsKept first =
      let taken = numbers-taken t before after m c e in
      let left = numbers-append t before after in
      let got = numbers-snoc t c.arrived m in
      let sent = sent_of-process t m c in
      elim (Bool-cases (is_ping_of t m)) [
        | inl mine ↦ record {
          count = ground (
            arith,
            k.count,
            taken,
            left,
            got,
            sent,
            first mine,
            length-append (numbers t c.arrived) (m.long_arg ∷ []),
          );
          order = λ none. ground (
            arith,
            k.order none,
            taken,
            left,
            got,
            sent,
            first mine,
            append_assoc (numbers t c.arrived) (m.long_arg ∷ []) (numbers t after),
          );
        }
        | inr other ↦ record {
          count = ground (arith, k.count, taken, left, got, sent, append-nil (numbers t c.arrived));
          order = λ none.
              ground
                (arith, k.order none, taken, left, got, sent, append-nil (numbers t c.arrived));
        }
      ]

  lose-IsKept : IsKept t (after_loss before m after c)
  lose-IsKept =
      let taken = numbers-taken t before after m c e in
      let left = numbers-append t before after in
      let gone = numbers-cons t m c.lost in
      elim (Bool-cases (is_ping_of t m)) [
        | inl mine ↦ record {
          count = ground (
            arith,
            k.count,
            taken,
            left,
            gone,
            length-append (numbers t before) (numbers t after),
            length-append (numbers t before) (m.long_arg ∷ numbers t after),
          );
          order = λ none. ground (arith, gone, mine, none);
        }
        | inr other ↦ record {
          count = ground (arith, k.count, taken, left, gone);
          order = λ none. ground (arith, k.order, taken, left, gone, none);
        }
      ]

shut-IsKept : (t : Addr) (c : Config) → IsKept t c → IsKept t (after_shutdown c)
unfolding numbers
shut-IsKept t c k =
    let q = numbers-append t c.queue (exit_msg ∷ []) ∙ append-nil (numbers t c.queue) in
    record { count = ground (arith, k.count, q); order = λ e. ground (arith, k.order e, q) }

pub Step-IsKept : (t : Addr) (c d : Config) → Step c d → IsKept t c → IsKept t d
Step-IsKept t c d (send u _ going works) k = elim (Bool-cases (u == t)) [
  | inl same ↦ rw ((==_iff u t).0 same) (send-own t c k)
  | inr other ↦ send-other t u c other k
]
Step-IsKept t c d (receive before m after _ going e first) k =
    receive-IsKept t before after m c e k (first t)
Step-IsKept t c d (lose before m after _ e) k = lose-IsKept t before after m c e k
Step-IsKept t c d (shut _ ended) k = shut-IsKept t c k
