-- ===== src/Threads/Schedule/Start.antt =====
-- The control threads when they are started, none of which has sent a message (`main` of the
-- threads programs).
use zmqtests.Base.{
  ℕ, zero, suc, ◌<◌, ◌≡◌, refl, sym, ◌∙◌, inl, inr, Bool, true, false, [], ◌==◌, some,
  if◌then◌else◌, Bool-cases, Option-cases, ==_iff, arith,
}
use zmqtests.Base.Int.{pos}
use zmqtests.Base.Table.{lookup, at}
use zmqtests.Zmq.{Addr}
use zmqtests.Threads.Globals.{addr_key, Globals}
use zmqtests.Threads.Detection.{process_all, numbers, count_from}
use zmqtests.Threads.Main.{thread_addr, register}
use zmqtests.Threads.Main.Registered.{register-IsTable}
use zmqtests.Threads.Schedule.{Config}
use zmqtests.Threads.Schedule.Order.{IsKept}
use zmqtests.Threads.Schedule.Counters.{IsCounted}

unfoldable pub is_thread : Addr → ℕ → Addr → Bool
is_thread a zero t = false
is_thread a (suc k) t = let rest = is_thread a k t in if t == thread_addr a k then true else rest

-- All threads are at work, and no message has been sent.
abbrev pub at_work : Addr → ℕ → Globals → Config
at_work a k g = record { globals = g; working = is_thread a k; queue = []; arrived = []; lost = [] }

pub is_thread-own : (a : Addr) (k i : ℕ) → i < k → is_thread a k (thread_addr a i) ≡ true
unfolding is_thread
is_thread-own a zero i p = absurd (omega arith)
is_thread-own a (suc k) i p = elim (Bool-cases (i == k)) [
  | inl same ↦ ground (arith)
  | inr other ↦ ground (arith, is_thread-own a k i)
]

pub is_thread-found :
    (a : Addr) (k : ℕ) (t : Addr)
    → is_thread a k t ≡ true
    → (i : ℕ) × (i < k) × (t ≡ thread_addr a i)
unfolding is_thread
is_thread-found a zero t e = absurd cc
is_thread-found a (suc k) t e = elim (Bool-cases (t == thread_addr a k)) [
  | inl same ↦ (k, omega arith, (==_iff t (thread_addr a k)).0 same)
  | inr other ↦
      let rest = is_thread-found a k t (ground (arith, e)) in
      (rest.0, omega (arith, rest.1), rest.2)
]

register-sent :
    (a : Addr) (i k : ℕ) (g : Globals)
    → g.max_control_msg_sent ≡ g.max_control_msg_received
    → (register a i k g).max_control_msg_sent ≡ (register a i k g).max_control_msg_received
unfolding register
register-sent a i zero g e = e
register-sent a i (suc k) g e = register-sent a (suc i) k _ (ground (arith, e))

module _ (a : Addr) (n k : ℕ) (g : Globals) (empty : g.max_control_msg_received ≡ [])
    (empty' : g.max_control_msg_sent ≡ []) where
  -- The entries of the sent counters are those of the threads.
  pub entry_of_thread :
      (t : Addr)
      → is_thread a k t ≡ true
      → lookup t (register a 0 k g).max_control_msg_sent ≡ some 0
  entry_of_thread t e =
      let own = is_thread-found a k t e in
      let table = register-IsTable a 0 k g in
      ground (
        arith,
        own,
        register-sent a 0 k g,
        empty,
        empty',
        table.made own.0 (omega arith) (omega (arith, own.1)),
      )

  pub thread_of_entry :
      (t : Addr) (v : ℕ)
      → lookup t (register a 0 k g).max_control_msg_sent ≡ some v
      → (v ≡ 0) × (is_thread a k t ≡ true)
  unfolding lookup
  thread_of_entry t v e =
      let table = register-IsTable a 0 k g in
      elim (table.found t v (ground (arith, e, register-sent a 0 k g, empty, empty'))) [
        | inl early ↦ absurd (ground (arith, early, empty))
        | inr own ↦ (
          own.0,
          ground (arith, own.1.here, is_thread-own a k own.1.index (omega (arith, own.1.high))),
        )
      ]

  no_pings : (t : Addr) → at 0 t (register a 0 k g).max_control_msg_sent ≡ 0
  unfolding at
  no_pings t = elim (Option-cases (lookup t (register a 0 k g).max_control_msg_sent)) [
    | inl e ↦ ground (arith, e)
    | inr e ↦ ground (arith, e.1, (thread_of_entry t e.0 e.1).0)
  ]

  pub start-IsKept : (t : Addr) → IsKept t (at_work a k (register a 0 k g))
  unfolding numbers count_from
  start-IsKept t = record {
    count = ground (arith, no_pings t);
    order = λ e. ground (arith, no_pings t);
  }

  pub start-IsCounted :
      g.num_msgs ≡ pos (suc n)
      → IsCounted (register a 0 k g) (suc n) (at_work a k (register a 0 k g))
  unfolding process_all
  start-IsCounted asked =
      let table = register-IsTable a 0 k g in
      record {
        same = refl;
        asked = ground (arith, asked, table.others);
        busy = λ t w. ground (arith, no_pings t);
        idle = λ t v w e. absurd (ground (arith, w, thread_of_entry t v e));
        ended = λ t v w e. absurd (ground (arith, w, thread_of_entry t v e));
        others = λ t none. (ground (arith, none, entry_of_thread t), none);
        distinct = rw (register-sent a 0 k g (empty' ∙ sym empty)) (table.distinct (rw empty tt));
      }
