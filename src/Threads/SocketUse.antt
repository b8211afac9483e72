-- ===== src/Threads/SocketUse.antt =====
-- How the programs with a socket for each thread use it: `sendCommand` of `pubsub.cpp`,
-- `pushpull.cpp` and `pairs.cpp`.
use zmqtests.Base.{
  ℕ, suc, ◌≡◌, ◌≢◌, refl, Bool, true, false, List, [], ◌∷◌, ◌==◌, ◌&&◌, ◌+◌, not, if◌then◌else◌,
  arith,
}
use zmqtests.Base.Int.{pos, ltb_ℤ, eqb_ℤ}
use zmqtests.Zmq.{
  Addr, ControlMsg, Call, zmq_socket, zmq_send, zmq_connect, zmq_disconnect, pthread_setspecific,
  pthread_mutex_lock, pthread_mutex_unlock, Env, World, done,
}
use zmqtests.Zmq.Monad.{M, ◌>>◌, skip}
use zmqtests.Threads.Globals.{Globals}
use zmqtests.Threads.Delivery.{Succeeds, send_command-Sends}
use zmqtests.Threads.Sending.Sequence.{IsSender}
use zmqtests.Threads.PubSub
use zmqtests.Threads.PushPull
use zmqtests.Threads.Pairs

-- Sockets made so far.
abbrev made_by : Call → ℕ → ℕ
made_by (zmq_socket ctx ty) n = suc n
made_by c n = n

unfoldable pub sockets_made : List Call → ℕ
sockets_made [] = 0
sockets_made (c ∷ cs) = made_by c (sockets_made cs)

-- The socket that the last `zmq_socket` has returned.
unfoldable pub last_made : Env → List Call → Addr
last_made env [] = 0
last_made env (zmq_socket ctx ty ∷ cs) = (env cs (zmq_socket ctx ty)).ptr
last_made env (c ∷ cs) = last_made env cs

-- A thread that sends messages one after another.
unfoldable pub send_all :
    (ControlMsg → M Globals (Unit {0})) → List ControlMsg → M Globals (Unit {0})
send_all send_command [] = skip
send_all send_command (m ∷ ms) = do send_command m; send_all send_command ms

-- `pthread_setspecific` returns 0 on success.
abbrev pub Stores : Env → Type 0
Stores env = (cs : List Call) (s : Addr) → (env cs (pthread_setspecific s)).rc ≡ pos 0

-- A call of `sendCommand` makes a socket exactly if the thread has none, and the thread has one
-- afterwards.
pub record MakesOne (env : Env) (w : World Globals) (w' : World Globals) : Type 0 where
  pub count :
      sockets_made w'.calls
      ≡ (if w.vars.specific == 0 then suc (sockets_made w.calls) else sockets_made w.calls)
  pub stored : w'.vars.specific ≢ 0
  pub new : w.vars.specific ≡ 0 → w'.vars.specific ≡ last_made env w'.calls
  pub kept :
      w.vars.specific ≢ 0
      → (w'.vars.specific ≡ w.vars.specific) × (last_made env w'.calls ≡ last_made env w.calls)

-- A program of the three: its `sendCommand`.
pub data Program : (ControlMsg → M Globals (Unit {0})) → Type 0 where
  pub_sub : Program PubSub.send_command
  push_pull : Program PushPull.send_command
  pairs : Program Pairs.send_command

module _ (env : Env) (up : Succeeds env) (stores : Stores env) where
  pub_sub-MakesOne :
      (m : ControlMsg) (w : World Globals) → MakesOne env w (PubSub.send_command m env w).1
  unfolding PubSub.send_command sockets_made last_made
  pub_sub-MakesOne m w = record {
    count = grind (arith, up.whole, up.nonneg, up.made, stores);
    stored = grind (arith, up.whole, up.nonneg, up.made, stores);
    new = λ h. grind (arith, up.whole, up.nonneg, up.made, stores);
    kept = λ h. (
      grind (arith, up.whole, up.nonneg, up.made, stores),
      grind (arith, up.whole, up.nonneg, up.made, stores),
    );
  }

  push_pull-MakesOne :
      (m : ControlMsg) (w : World Globals) → MakesOne env w (PushPull.send_command m env w).1
  unfolding PushPull.send_command sockets_made last_made
  push_pull-MakesOne m w = record {
    count = grind (arith, up.whole, up.nonneg, up.made, stores);
    stored = grind (arith, up.whole, up.nonneg, up.made, stores);
    new = λ h. grind (arith, up.whole, up.nonneg, up.made, stores);
    kept = λ h. (
      grind (arith, up.whole, up.nonneg, up.made, stores),
      grind (arith, up.whole, up.nonneg, up.made, stores),
    );
  }

  pairs-MakesOne :
      (m : ControlMsg) (w : World Globals) → MakesOne env w (Pairs.send_command m env w).1
  unfolding Pairs.send_command sockets_made last_made
  pairs-MakesOne m w = record {
    count = grind (arith, up.whole, up.nonneg, up.made, stores);
    stored = grind (arith, up.whole, up.nonneg, up.made, stores);
    new = λ h. grind (arith, up.whole, up.nonneg, up.made, stores);
    kept = λ h. (
      grind (arith, up.whole, up.nonneg, up.made, stores),
      grind (arith, up.whole, up.nonneg, up.made, stores),
    );
  }

module _ (f : ControlMsg → M Globals (Unit {0})) (env : Env) (sends : IsSender f env)
    (makes : (m : ControlMsg) (w : World Globals) → MakesOne env w (f m env w).1) where
  send_all-keeps :
      (ms : List ControlMsg) (w : World Globals)
      → w.vars.specific ≢ 0
      → ((send_all f ms env w).0 ≡ done tt)
        × (sockets_made (send_all f ms env w).1.calls ≡ sockets_made w.calls)
        × ((send_all f ms env w).1.vars.specific ≡ w.vars.specific)
        × (last_made env (send_all f ms env w).1.calls ≡ last_made env w.calls)
  unfolding send_all
  send_all-keeps [] w h = (refl, refl, refl, refl)
  send_all-keeps (m ∷ ms) w h =
      let w' = (f m env w).1 in
      let s = sends m w in
      let one = makes m w in
      let rest = send_all-keeps ms w' one.stored in
      (
        ground (arith, s.returns, rest.0),
        ground (arith, s.returns, rest.1, one.count),
        ground (arith, s.returns, rest.2, (one.kept h).0),
        ground (arith, s.returns, rest.3, (one.kept h).1),
      )

  pub send_all-one :
      (m : ControlMsg) (ms : List ControlMsg) (w : World Globals)
      → w.vars.specific ≡ 0
      → ((send_all f (m ∷ ms) env w).0 ≡ done tt)
        × (sockets_made (send_all f (m ∷ ms) env w).1.calls ≡ suc (sockets_made w.calls))
        × ((send_all f (m ∷ ms) env w).1.vars.specific
            ≡ last_made env (send_all f (m ∷ ms) env w).1.calls)
        × ((send_all f (m ∷ ms) env w).1.vars.specific ≢ 0)
  unfolding send_all
  send_all-one m ms w h =
      let w' = (f m env w).1 in
      let s = sends m w in
      let one = makes m w in
      let rest = send_all-keeps ms w' one.stored in
      (
        ground (arith, s.returns, rest.0),
        ground (arith, s.returns, rest.1, one.count),
        ground (arith, s.returns, rest.2, rest.3, one.new h),
        λ e. one.stored (ground (arith, s.returns, rest.2)),
      )

-- A thread with no socket that sends one or more commands makes exactly one socket, in each of
-- the programs with a socket for each thread, and keeps in its slot the socket that this one call
-- of `zmq_socket` has returned. The conditions: every call succeeds, and the slot can be written.
pub send_all-sockets_made :
    (env : Env)
    → Succeeds env
    → Stores env
    → (f : ControlMsg → M Globals (Unit {0})) → Program f
    → (m : ControlMsg) (ms : List ControlMsg) (w : World Globals) → w.vars.specific ≡ 0
    → ((send_all f (m ∷ ms) env w).0 ≡ done tt)
      × (sockets_made (send_all f (m ∷ ms) env w).1.calls ≡ suc (sockets_made w.calls))
      × ((send_all f (m ∷ ms) env w).1.vars.specific
          ≡ last_made env (send_all f (m ∷ ms) env w).1.calls)
      × ((send_all f (m ∷ ms) env w).1.vars.specific ≢ 0)
send_all-sockets_made env up stores f pub_sub =
    send_all-one f env (send_command-Sends env up).0 (pub_sub-MakesOne env up stores)
send_all-sockets_made env up stores f push_pull =
    send_all-one f env (send_command-Sends env up).1 (push_pull-MakesOne env up stores)
send_all-sockets_made env up stores f pairs =
    send_all-one f env (send_command-Sends env up).2 (pairs-MakesOne env up stores)

-- Whether a socket is connected after the calls made so far: a disconnect that fails leaves it as it
-- was.
unfoldable pub is_connected : Env → Addr → List Call → Bool
is_connected env s [] = false
is_connected env s (zmq_connect t e ∷ cs) =
    let before = is_connected env s cs in if t == s then true else before
is_connected env s (zmq_disconnect t e ∷ cs) =
    let before = is_connected env s cs in
    if (t == s) && not (ltb_ℤ (env cs (zmq_disconnect t e)).rc (pos 0)) then false else before
is_connected env s (c ∷ cs) = is_connected env s cs

-- Whether the mutex is held, where a call of a mutex function that fails leaves it as it was, and how
-- many connects, sends and disconnects were made without it.
unfoldable pub is_locked : Env → List Call → Bool
is_locked env [] = false
is_locked env (pthread_mutex_lock ∷ cs) =
    let before = is_locked env cs in
    if eqb_ℤ (env cs pthread_mutex_lock).rc (pos 0) then true else before
is_locked env (pthread_mutex_unlock ∷ cs) =
    let before = is_locked env cs in
    if eqb_ℤ (env cs pthread_mutex_unlock).rc (pos 0) then false else before
is_locked env (c ∷ cs) = is_locked env cs

abbrev one_unless : Bool → ℕ
one_unless b = if b then 0 else 1

unfoldable pub unguarded : Env → List Call → ℕ
unfolding is_locked
unguarded env [] = 0
unguarded env (zmq_connect s e ∷ cs) = one_unless (is_locked env cs) + unguarded env cs
unguarded env (zmq_send s m f ∷ cs) = one_unless (is_locked env cs) + unguarded env cs
unguarded env (zmq_disconnect s e ∷ cs) = one_unless (is_locked env cs) + unguarded env cs
unguarded env (c ∷ cs) = unguarded env cs

-- `sendCommand` of `pairs.cpp` where no socket is connected before it, the mutex functions return 0,
-- and the other calls reply whatever they do: if it returns, every socket is disconnected again, no
-- disconnect having failed; the mutex is free if the mutex switch is set, and as before if not; and
-- if the switch is set, no connect, send or disconnect of it was made without the mutex.
pub pairs-releases :
    (env : Env)
    → ((cs : List Call) → (env cs pthread_mutex_lock).rc ≡ pos 0)
    → ((cs : List Call) → (env cs pthread_mutex_unlock).rc ≡ pos 0)
    → (m : ControlMsg) (w : World Globals) → (Pairs.send_command m env w).0 ≡ done tt
    → ((s : Addr) → is_connected env s w.calls ≡ false)
    → ((s : Addr) → is_connected env s (Pairs.send_command m env w).1.calls ≡ false)
      × (is_locked env (Pairs.send_command m env w).1.calls
          ≡ (if w.vars.mutex_flag then false else is_locked env w.calls))
      × (w.vars.mutex_flag ≡ true
          → unguarded env (Pairs.send_command m env w).1.calls ≡ unguarded env w.calls)
unfolding Pairs.send_command is_connected is_locked unguarded
pairs-releases env locked unlocked m w h free = (
  λ s. ground (arith, h, free s),
  grind (arith, h, locked, unlocked),
  λ on. grind (arith, h, on, locked, unlocked),
)
