-- ===== src/Threads/Main/Registered.antt =====
-- The entries of the counters when the control threads start.
use zmqtests.Base.{
  ℕ, zero, suc, ◌+◌, ◌<◌, ◌≤◌, ◌≡◌, ◌≢◌, refl, ◌==◌, some, inl, inr, ◌⊎◌, Bool-cases, arith,
}
use zmqtests.Base.Table.{lookup, insert, lookup-insert, IsUnique, insert-IsUnique}
use zmqtests.Zmq.{Addr}
use zmqtests.Threads.Globals.{addr_key, Globals}
use zmqtests.Threads.Main.{thread_addr, register}

-- The address belongs to a thread, counted from `i`.
pub record IsThread (command_thread : Addr) (i n : ℕ) (t : Addr) : Type 0 where
  pub index : ℕ
  pub low : i ≤ index
  pub high : index < i + n
  pub here : t ≡ thread_addr command_thread index

-- Every thread has an entry 0, and nobody else has one.
pub record IsTable (command_thread : Addr) (i n : ℕ) (g g' : Globals) : Type 0 where
  pub kept :
      (t : Addr)
      → ((j : ℕ) → i ≤ j → j < i + n → t ≢ thread_addr command_thread j)
      → lookup t g'.max_control_msg_received ≡ lookup t g.max_control_msg_received
  pub made :
      (j : ℕ)
      → i ≤ j
      → j < i + n
      → lookup (thread_addr command_thread j) g'.max_control_msg_received ≡ some 0
  pub found :
      (t : Addr) (v : ℕ)
      → lookup t g'.max_control_msg_received ≡ some v
      → (lookup t g.max_control_msg_received ≡ some v) ⊎ ((v ≡ 0) × IsThread command_thread i n t)
  pub distinct : IsUnique g.max_control_msg_received → IsUnique g'.max_control_msg_received
  pub others : g' ≡ record g {
    max_control_msg_sent = g'.max_control_msg_sent;
    max_control_msg_received = g'.max_control_msg_received;
  }

thread_addr_injective : (a i j : ℕ) → thread_addr a i ≡ thread_addr a j → i ≡ j
unfolding thread_addr
thread_addr_injective a i j e = omega arith

found_earlier :
    (a : Addr) (i n : ℕ) (t : Addr) (v : ℕ) (g : Globals)
    → (lookup t (insert (thread_addr a i) 0 g.max_control_msg_received) ≡ some v)
      ⊎ ((v ≡ 0) × IsThread a (suc i) n t)
    → (lookup t g.max_control_msg_received ≡ some v) ⊎ ((v ≡ 0) × IsThread a i (suc n) t)
found_earlier a i n t v g (inr (z, own)) = inr (
  z,
  record {
    index = own.index;
    low = ground (arith, own.low);
    high = ground (arith, own.high);
    here = own.here;
  },
)
found_earlier a i n t v g (inl e) = elim (Bool-cases (thread_addr a i == t)) [
  | inl same ↦ inr (
    ground (arith, lookup-insert (thread_addr a i) t 0 g.max_control_msg_received),
    record { index = i; low = omega arith; high = omega arith; here = ground arith },
  )
  | inr other ↦ inl (ground (arith, lookup-insert (thread_addr a i) t 0 g.max_control_msg_received))
]

pub register-IsTable : (a : Addr) (i n : ℕ) (g : Globals) → IsTable a i n g (register a i n g)
unfolding register
register-IsTable a i zero g = record {
  kept = λ t h. refl;
  made = λ j p q. absurd (omega arith);
  found = λ t v e. inl e;
  distinct = λ u. u;
  others = refl;
}
register-IsTable a i (suc n) g =
    let g1 : Globals = record g {
      max_control_msg_sent = insert (thread_addr a i) 0 g.max_control_msg_sent;
      max_control_msg_received = insert (thread_addr a i) 0 g.max_control_msg_received;
    } in
    let rest = register-IsTable a (suc i) n g1 in
    record {
      kept = λ t h. ground (
        arith,
        rest.kept t (λ j p q. h j (omega arith) (omega arith)),
        lookup-insert (thread_addr a i) t 0 g.max_control_msg_received,
        h i (omega arith) (omega arith),
      );
      made = λ j p q. elim (Bool-cases (i == j)) [
        | inl same ↦ ground (
          arith,
          rest.kept (thread_addr a j) (λ k p' q' e. ground (arith, thread_addr_injective a j k e)),
          lookup-insert (thread_addr a i) (thread_addr a j) 0 g.max_control_msg_received,
        )
        | inr other ↦ rest.made j (ground arith) (omega arith)
      ];
      found = λ t v e. found_earlier a i n t v g (rest.found t v e);
      distinct =
          λ u. rest.distinct (insert-IsUnique (thread_addr a i) 0 g.max_control_msg_received u);
      others = ground (arith, rest.others);
    }
