-- ===== src/Zmq/Rules.antt =====
-- A rule for each way to put programs together: a program keeps a predicate on what has been done
-- so far, and no `assert` of it fails.
use zmqtests.Base.{Bool, true, false, if◌then◌else◌}
use zmqtests.Zmq.{Env, World, Outcome, done, aborted}
use zmqtests.Zmq.Monad.{M, ◌>>=◌, ◌>>◌, next, ret, when}

abbrev pub IsDone : {A : Type 0} → Outcome A → Type 0
IsDone (done a) = Unit {0}
IsDone aborted = ⊥

-- The predicate holds of what has been done, and the program has not aborted.
abbrev pub Good : {G A : Type 0} → (World G → Type 0) → Outcome A × World G → Type 0
Good P r = P r.1 × IsDone r.0

pub record Keeps {G : Type 0} (P : World G → Type 0) (env : Env) {A : Type 0} (m : M G A)
    : Type 0 where
  pub run : (w : World G) → P w → Good P (m env w)

module _ {G : Type 0} {P : World G → Type 0} {env : Env} where
  next-Good :
      {A B : Type 0} (f : A → M G B) (r : Outcome A × World G)
      → ((a : A) → Keeps P env (f a))
      → Good P r
      → Good P (next r f env)
  next-Good f (done a, w) k g = (k a).run w g.0
  next-Good f (aborted, w) k g = absurd g.1

  pub bind-Keeps :
      {A B : Type 0} {m : M G A} {f : A → M G B}
      → Keeps P env m
      → ((a : A) → Keeps P env (f a))
      → Keeps P env (m >>= f)
  bind-Keeps {m} {f} h k = record { run = λ w p. next-Good f (m env w) k (h.run w p) }

  pub then-Keeps :
      {B : Type 0} {m : M G (Unit {0})} {k : M G B}
      → Keeps P env m
      → Keeps P env k
      → Keeps P env (m >> k)
  then-Keeps {m} {k} h g = record { run = λ w p. next-Good (λ _. k) (m env w) (λ _. g) (h.run w p) }

  pub ret-Keeps : {A : Type 0} (a : A) → Keeps P env (ret a)
  ret-Keeps a = record { run = λ w p. (p, tt) }

  pub when-Keeps : (b : Bool) {m : M G (Unit {0})} → Keeps P env m → Keeps P env (when b m)
  when-Keeps true h = h
  when-Keeps false h = record { run = λ w p. (p, tt) }

  pub if-Keeps :
      {A : Type 0} (b : Bool) {m k : M G A}
      → Keeps P env m
      → Keeps P env k
      → Keeps P env (if b then m else k)
  if-Keeps true h g = h
  if-Keeps false h g = g
