-- ===== src/Zmq/Monad.antt =====
-- Sequencing of calls: a program in `M G A` reads and writes variables `G`, makes calls and
-- returns an `A`, or aborts. The helpers that the programs share are here too: `checkVoid` and
-- `checkInt` of threads/common.h, the macro `CALL_INT_FUNC` of the common.h files, and `assert`.
use zmqtests.Base.{List, Bool, true, false, ◌∷◌, ◌==◌, if◌then◌else◌}
use zmqtests.Base.Int.{ℤ, pos, ltb_ℤ}
use zmqtests.Zmq.{Addr, Call, Reply, Env, World, Outcome, done, aborted, Diag, call_failed}

abbrev pub M : Type 0 → Type 0 → Type 0
M G A = Env → World G → Outcome A × World G

abbrev pub next : {G A B : Type 0} → Outcome A × World G → (A → M G B) → Env → Outcome B × World G
next (done a, w) f env = f a env w
next (aborted, w) f env = (aborted, w)

infixl 5 ◌>>=◌ ◌>>◌
abbrev pub ◌>>=◌ : {G A B : Type 0} → M G A → (A → M G B) → M G B
◌>>=◌ m f env w = next (m env w) f env

abbrev pub ◌>>◌ : {G B : Type 0} → M G (Unit {0}) → M G B → M G B
◌>>◌ m k env w = next (m env w) (λ _. k) env

abbrev pub ret : {G A : Type 0} → A → M G A
ret a env w = (done a, w)

abbrev pub skip : {G : Type 0} → M G (Unit {0})
skip env w = (done tt, w)

abbrev pub abort : {G A : Type 0} → M G A
abort env w = (aborted, w)

abbrev pub vars : {G : Type 0} → M G G
vars env w = (done w.vars, w)

abbrev pub set_vars : {G : Type 0} → G → M G (Unit {0})
set_vars g env w = (done tt, record w { vars = g })

abbrev pub diag : {G : Type 0} → Diag → M G (Unit {0})
diag d env w = (done tt, record w { log = d ∷ w.log })

abbrev pub call : {G : Type 0} → Call → M G Reply
call c env w = (done (env w.calls c), record w { calls = c ∷ w.calls })

abbrev pub when : {G : Type 0} → Bool → M G (Unit {0}) → M G (Unit {0})
when true m env w = m env w
when false m env w = (done tt, w)

-- A call whose result is not read.
abbrev pub run_call : {G : Type 0} → Call → M G (Unit {0})
run_call c env w = (done tt, record w { calls = c ∷ w.calls })

-- `assert (b)`
abbrev pub assert : {G : Type 0} → Bool → M G (Unit {0})
assert true env w = (done tt, w)
assert false env w = (aborted, w)

-- A null pointer is fatal.
unfoldable pub check_void : {G : Type 0} → Addr → M G (Unit {0})
check_void x = if x == 0 then (do diag call_failed; abort) else skip

-- A negative return code is fatal.
unfoldable pub check_int : {G : Type 0} → ℤ → M G (Unit {0})
check_int x = if ltb_ℤ x (pos 0) then (do diag call_failed; abort) else skip

-- `CALL_INT_FUNC`: a negative return code is logged, and the program goes on.
unfoldable pub note_failure : Reply → List Diag → List Diag
note_failure r log = if ltb_ℤ r.rc (pos 0) then call_failed ∷ log else log

abbrev pub call_int_func : {G : Type 0} → Call → M G Reply
call_int_func c env w = (
  done (env w.calls c),
  record w { calls = c ∷ w.calls; log = note_failure (env w.calls c) w.log },
)

-- The same where the reply is not read.
abbrev pub logged : {G : Type 0} → Call → M G (Unit {0})
logged c env w = next (call_int_func c env w) (λ r. skip) env
