-- ===== src/Threads/Detection.antt =====
-- What `failed` says after the messages of a run have been processed (`threads/common.h`).
use zmqtests.Base.{
  ℕ, zero, suc, ◌+◌, ◌≡◌, refl, ap, ◌↔◌, inl, inr, Bool, true, false, List, [], ◌∷◌, ◌==◌, ltb,
  if◌then◌else◌, Bool-cases, length, arith,
}
use zmqtests.Base.Table.{at, touch, at-insert, at-touch}
use zmqtests.Zmq.{Addr, ControlMsg}
use zmqtests.Threads.Globals.{addr_key, Globals, ping_command}
use zmqtests.Threads.Control.{process_control_msg}

unfoldable pub process_all : Globals → List ControlMsg → Globals
process_all g [] = g
process_all g (m ∷ ms) = process_all (process_control_msg g m) ms

-- The numbers of the pings of one thread, in the order of arrival.
unfoldable pub numbers : Addr → List ControlMsg → List ℕ
numbers t [] = []
numbers t (m ∷ ms) =
    let rest = numbers t ms in
    if m.command == ping_command
    then (if m.void_arg == t then m.long_arg ∷ rest else rest)
    else rest

-- Each number is one more than the one before it, the first one more than `k`.
abbrev pub Consecutive : ℕ → List ℕ → Type 0
Consecutive k [] = Unit {0}
Consecutive k (x ∷ xs) = (x ≡ suc k) × Consecutive x xs

abbrev pub received : Addr → Globals → ℕ
received t g = at 0 t g.max_control_msg_received

abbrev pub is_ping_of : Addr → ControlMsg → Bool
is_ping_of t m = if m.command == ping_command then m.void_arg == t else false

-- One message, as the entry of thread `t` sees it.
pub process_control_msg-received :
    (g : Globals) (m : ControlMsg) (t : Addr)
    → received t (process_control_msg g m) ≡ (
        if is_ping_of t m
        then (if ltb (received t g) m.long_arg then m.long_arg else received t g)
        else received t g)
unfolding process_control_msg
process_control_msg-received g m t =
    let old = g.max_control_msg_received in
    ground (
      arith,
      at-insert 0 m.void_arg t m.long_arg (touch 0 m.void_arg old),
      at-touch 0 m.void_arg t old,
      at-touch 0 m.void_arg m.void_arg old,
    )

pub process_control_msg-failed :
    (g : Globals) (m : ControlMsg)
    → ((process_control_msg g m).failed ≡ false) ↔ (
        (g.failed ≡ false) × ((t : Addr) → is_ping_of t m ≡ true → m.long_arg ≡ suc (received t g)))
unfolding process_control_msg
process_control_msg-failed g m =
    (λ e. (ground arith, λ t p. ground arith), λ h. ground (arith, h.1 m.void_arg))

pub numbers-cons :
    (t : Addr) (m : ControlMsg) (ms : List ControlMsg)
    → numbers t (m ∷ ms) ≡ (if is_ping_of t m then m.long_arg ∷ numbers t ms else numbers t ms)
unfolding numbers
numbers-cons t m ms = ground arith

next_number : (a b : ℕ) → b ≡ suc a → (if ltb a b then b else a) ≡ b
next_number a b e = ground arith

-- The step of the induction below, for one thread.
Consecutive-step :
    (g : Globals) (m : ControlMsg) (ms : List ControlMsg) (t : Addr)
    → Consecutive (received t g) (numbers t (m ∷ ms)) ↔ (
        (is_ping_of t m ≡ true → m.long_arg ≡ suc (received t g))
        × Consecutive (received t (process_control_msg g m)) (numbers t ms))
Consecutive-step g m ms t = elim (Bool-cases (is_ping_of t m)) [
  | inl mine ↦
      rw (numbers-cons t m ms, process_control_msg-received g m t, mine)
        (
          λ c. (λ _. c.0, rw (next_number _ _ c.0) c.1),
          λ h. (h.0 refl, rw (next_number _ _ (h.0 refl)) at (h.1)),
        )
  | inr other ↦
      rw (numbers-cons t m ms, process_control_msg-received g m t, other)
        (λ c. (λ e. cc, c), λ h. h.1)
]

-- No failure is noted exactly when the numbers of every thread continue its last number with no
-- gap, repetition or exchange.
pub process_all-failed :
    (g : Globals) (ms : List ControlMsg)
    → ((process_all g ms).failed ≡ false)
      ↔ ((g.failed ≡ false) × ((t : Addr) → Consecutive (received t g) (numbers t ms)))
unfolding process_all numbers
process_all-failed g [] = (λ e. (e, λ t. tt), λ h. h.0)
process_all-failed g (m ∷ ms) =
    let g' = process_control_msg g m in
    let ih = process_all-failed g' ms in
    let one = process_control_msg-failed g m in
    (
      λ e.
          let (ok, rest) = ih.0 e in
          let (before, mine) = one.0 ok in
          (before, λ t. (Consecutive-step g m ms t).1 (mine t, rest t)),
      λ h. ih.1 (
        one.1 (h.0, λ t. ((Consecutive-step g m ms t).0 (h.1 t)).0),
        λ t. ((Consecutive-step g m ms t).0 (h.1 t)).1,
      ),
    )

-- `k + 1`, …, `k + n`.
unfoldable pub count_from : ℕ → ℕ → List ℕ
count_from k zero = []
count_from k (suc n) = suc k ∷ count_from (suc k) n

pub Consecutive-count_from : (k n : ℕ) → Consecutive k (count_from k n)
unfolding count_from
Consecutive-count_from k zero = tt
Consecutive-count_from k (suc n) = (refl, Consecutive-count_from (suc k) n)

pub length-count_from : (k n : ℕ) → length (count_from k n) ≡ n
unfolding count_from
length-count_from k zero = refl
length-count_from k (suc n) = ap suc (length-count_from (suc k) n)

pub eq-count_from_of_Consecutive :
    (k : ℕ) (xs : List ℕ) → Consecutive k xs → xs ≡ count_from k (length xs)
unfolding count_from
eq-count_from_of_Consecutive k [] c = refl
eq-count_from_of_Consecutive k (x ∷ xs) c = ground (arith, eq-count_from_of_Consecutive x xs c.1)

-- With no gap the entry of a thread counts its messages.
pub received-process_all :
    (g : Globals) (ms : List ControlMsg) (t : Addr)
    → Consecutive (received t g) (numbers t ms)
    → received t (process_all g ms) ≡ received t g + length (numbers t ms)
unfolding process_all numbers
received-process_all g [] t c = omega arith
received-process_all g (m ∷ ms) t c =
    let step = (Consecutive-step g m ms t).0 c in
    let ih = received-process_all (process_control_msg g m) ms t step.1 in
    ground (arith, ih, step.0, process_control_msg-received g m t, numbers-cons t m ms)
