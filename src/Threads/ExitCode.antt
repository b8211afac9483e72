-- ===== src/Threads/ExitCode.antt =====
-- What the exit code of the threads programs says of the messages that the main loop has
-- processed (`processControlMsg`, `checkResults` and the last lines of `main`).
mod Entries
use zmqtests.Threads.ExitCode.Entries.{
  exit_code-eq-zero, process_all-num_msgs, process_all-sent, process_all-IsUnique,
  lookup-process_all-some, lookup-process_all-none, received_of_lookup,
}
use zmqtests.Base.{
  ℕ, zero, suc, ◌+◌, ◌≡◌, refl, sym, ap, ◌∙◌, ◌↔◌, inl, inr, Bool, true, false, ◌||◌, not, List, [],
  ◌∷◌, ◌==◌, Option, none, some, ltb, if◌then◌else◌, Bool-cases, Option-cases, length, arith,
}
use zmqtests.Base.Int.{ℤ, pos, eqb_ℤ}
use zmqtests.Base.Table.{
  lookup, insert, at, touch, lookup-insert, IsUnique, AllValues, AllValues-lookup, lookup-AllValues,
  insert-IsUnique, touch-IsUnique,
}
use zmqtests.Zmq.{Addr, ControlMsg}
use zmqtests.Threads.Globals.{addr_key, Globals, Counters}
use zmqtests.Threads.Control.{process_control_msg}
use zmqtests.Threads.Results.{any_differs, check_results, print_results, exit_code}
use zmqtests.Threads.Detection.{
  process_all, numbers, numbers-cons, received, is_ping_of, Consecutive, process_all-failed,
  process_control_msg-received, count_from, Consecutive-count_from, length-count_from,
  eq-count_from_of_Consecutive, received-process_all,
}

-- The globals of `main` before the main loop has processed a message: every thread has an entry 0
-- among the received counters. `all_sent` is what the command loops leave in the sent counters.
pub record IsStarted (n : ℕ) (g : Globals) : Type 0 where
  pub asked : g.num_msgs ≡ pos n
  pub not_failed : g.failed ≡ false
  pub distinct : IsUnique g.max_control_msg_received
  pub at_zero : (t : Addr) (v : ℕ) → lookup t g.max_control_msg_received ≡ some v → v ≡ 0
  pub all_sent : AllValues (λ _ v. v ≡ n) g.max_control_msg_sent

-- A control thread: one with an entry.
abbrev pub IsRegistered : Globals → Addr → Type 0
IsRegistered g t = lookup t g.max_control_msg_received ≡ some 0

-- No ping names an address that is no control thread.
abbrev pub OnlyRegistered : Globals → List ControlMsg → Type 0
OnlyRegistered g ms = (t : Addr) → lookup t g.max_control_msg_received ≡ none → numbers t ms ≡ []

module _ (g : Globals) (n : ℕ) (ms : List ControlMsg) (started : IsStarted n g) where
  delivered_of_exit_zero :
      exit_code (process_all g ms) ≡ 0
      → (t : Addr) → IsRegistered g t
      → numbers t ms ≡ count_from 0 n
  delivered_of_exit_zero z t reg =
      let final = process_all g ms in
      let h = (exit_code-eq-zero final n (process_all-num_msgs g ms ∙ started.asked)).0 z in
      let c = ((process_all-failed g ms).0 h.0).1 t in
      let entry = lookup-process_all-some g ms t 0 reg in
      ground (
        arith,
        received_of_lookup g t 0 reg,
        AllValues-lookup (λ _ v. v ≡ n) t (received t final) final.max_control_msg_received h.2
            entry,
        received-process_all g ms t c,
        eq-count_from_of_Consecutive (received t g) (numbers t ms) c,
      )

  in_order :
      OnlyRegistered g ms
      → ((t : Addr) → IsRegistered g t → numbers t ms ≡ count_from 0 n)
      → (t : Addr) → Consecutive (received t g) (numbers t ms)
  in_order only all t = elim (Option-cases (lookup t g.max_control_msg_received)) [
    | inl absent ↦ rw (only t absent) tt
    | inr (v, entry) ↦
        let zero_entry : IsRegistered g t = entry ∙ ap some (started.at_zero t v entry) in
        rw (all t zero_entry, received_of_lookup g t 0 zero_entry) (Consecutive-count_from 0 n)
  ]

  final_entry :
      OnlyRegistered g ms
      → ((t : Addr) → IsRegistered g t → numbers t ms ≡ count_from 0 n)
      → (t : Addr) (w : ℕ) → lookup t (process_all g ms).max_control_msg_received ≡ some w
      → w ≡ n
  final_entry only all t w e = elim (Option-cases (lookup t g.max_control_msg_received)) [
    | inl absent ↦ absurd (ground (arith, lookup-process_all-none g ms t absent (only t absent)))
    | inr (v, entry) ↦
        let zero_entry : IsRegistered g t = entry ∙ ap some (started.at_zero t v entry) in
        ground (
          arith,
          lookup-process_all-some g ms t 0 zero_entry,
          received_of_lookup g t 0 zero_entry,
          received-process_all g ms t (in_order only all t),
          all t zero_entry,
          length-count_from 0 n,
        )
  ]

  exit_zero_of_delivered :
      OnlyRegistered g ms
      → ((t : Addr) → IsRegistered g t → numbers t ms ≡ count_from 0 n)
      → exit_code (process_all g ms) ≡ 0
  exit_zero_of_delivered only all =
      let final = process_all g ms in
      (exit_code-eq-zero final n (process_all-num_msgs g ms ∙ started.asked)).1 (
        (process_all-failed g ms).1 (started.not_failed, in_order only all),
        rw (process_all-sent g ms) started.all_sent,
        lookup-AllValues (λ _ v. v ≡ n) final.max_control_msg_received
            (process_all-IsUnique g ms started.distinct) (final_entry only all),
      )

-- The program exits with 0 exactly when, for every control thread, the pings that the main loop
-- has processed carry the numbers 1 to n in this order: a lost, repeated or reordered ping shows
-- in the exit code. The conditions: all threads have sent n pings (`IsStarted`), and no ping
-- names an address that is no control thread.
pub exit_zero_iff_delivered :
    (g : Globals) (n : ℕ) (ms : List ControlMsg)
    → IsStarted n g
    → OnlyRegistered g ms
    → (exit_code (process_all g ms) ≡ 0)
      ↔ ((t : Addr) → IsRegistered g t → numbers t ms ≡ count_from 0 n)
exit_zero_iff_delivered g n ms started only =
    (delivered_of_exit_zero g n ms started, exit_zero_of_delivered g n ms started only)
