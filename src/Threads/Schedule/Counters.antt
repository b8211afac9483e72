-- ===== src/Threads/Schedule/Counters.antt =====
-- The counters while the threads run (`threads/common.h`).
use zmqtests.Base.{
  ℕ, suc, ◌<◌, ◌≡◌, refl, sym, ap, ◌∙◌, true, false, List, [], ◌∷◌, ◌++◌, none, some, ==_iff, arith,
}
use zmqtests.Base.Int.{pos}
use zmqtests.Base.Table.{lookup, at, insert, at-insert, lookup-insert, IsUnique, insert-IsUnique}
use zmqtests.Zmq.{Addr, ControlMsg}
use zmqtests.Threads.Globals.{addr_key, Globals, Counters}
use zmqtests.Threads.Control.{process_control_msg}
use zmqtests.Threads.Sending.{next_msg_num, count_sent}
use zmqtests.Threads.Detection.{process_all}
use zmqtests.Threads.Schedule.{
  Config, Step, send, receive, lose, shut, exit_msg, after_send, after_receive,
}

abbrev pub with_sent : Globals → Counters → Globals
with_sent g sent = record g { max_control_msg_sent = sent }

-- The main loop neither reads nor changes the sent counters.
process_control_msg-with_sent :
    (g : Globals) (sent : Counters) (m : ControlMsg)
    → process_control_msg (with_sent g sent) m ≡ with_sent (process_control_msg g m) sent
unfolding process_control_msg
process_control_msg-with_sent g sent m = ground arith

process_all-with_sent :
    (g : Globals) (sent : Counters) (ms : List ControlMsg)
    → process_all (with_sent g sent) ms ≡ with_sent (process_all g ms) sent
unfolding process_all
process_all-with_sent g sent [] = refl
process_all-with_sent g sent (m ∷ ms) =
    ap (λ h. process_all h ms) (process_control_msg-with_sent g sent m)
    ∙ process_all-with_sent (process_control_msg g m) sent ms

process_all-snoc :
    (g : Globals) (ms : List ControlMsg) (m : ControlMsg)
    → process_all g (ms ++ m ∷ []) ≡ process_control_msg (process_all g ms) m
unfolding process_all
process_all-snoc g [] m = refl
process_all-snoc g (x ∷ ms) m = process_all-snoc (process_control_msg g x) ms m

-- The globals are those of the start, but for the sent counters, and for what the main loop has made
-- of the messages that have arrived.
pub record IsCounted (start : Globals) (n : ℕ) (c : Config) : Type 0 where
  pub same : c.globals ≡ process_all (with_sent start c.globals.max_control_msg_sent) c.arrived
  pub asked : c.globals.num_msgs ≡ pos n
  pub busy : (t : Addr) → c.working t ≡ true → at 0 t c.globals.max_control_msg_sent < n
  pub idle :
      (t : Addr) (v : ℕ)
      → c.working t ≡ false
      → lookup t c.globals.max_control_msg_sent ≡ some v
      → v ≡ n
  pub ended :
      (t : Addr) (v : ℕ)
      → c.working t ≡ false
      → lookup t start.max_control_msg_sent ≡ some v
      → at 0 t c.globals.max_control_msg_sent ≡ n
  pub others :
      (t : Addr)
      → lookup t start.max_control_msg_sent ≡ none
      → (c.working t ≡ false) × (lookup t c.globals.max_control_msg_sent ≡ none)
  pub distinct : IsUnique c.globals.max_control_msg_sent

module _ (start : Globals) (n : ℕ) (c : Config) (k : IsCounted start n c) where
  send-IsCounted : (t : Addr) → c.working t ≡ true → IsCounted start n (after_send t c)
  unfolding count_sent next_msg_num
  send-IsCounted t works =
      let sent = c.globals.max_control_msg_sent in
      let sent' = insert t (next_msg_num c.globals t) sent in
      record {
        same =
            ap (λ h. with_sent h sent') (k.same ∙ process_all-with_sent start sent c.arrived)
            ∙ sym (process_all-with_sent start sent' c.arrived);
        asked = k.asked;
        busy = λ u w. ground (
          arith,
          k.busy u,
          k.busy t works,
          k.asked,
          at-insert 0 t u (suc (at 0 t sent)) sent,
          ==_iff t u,
        );
        idle = λ u v w e. ground (
          arith,
          k.idle u v,
          k.busy t works,
          k.asked,
          lookup-insert t u (suc (at 0 t sent)) sent,
          ==_iff t u,
        );
        ended = λ u v w e. ground (
          arith,
          k.ended u v,
          e,
          k.busy t works,
          k.asked,
          at-insert 0 t u (suc (at 0 t sent)) sent,
          ==_iff t u,
        );
        others = λ u none.
            ground (
              arith,
              k.others u none,
              works,
              lookup-insert t u (suc (at 0 t sent)) sent,
              ==_iff t u,
            );
        distinct = insert-IsUnique t (suc (at 0 t sent)) sent k.distinct;
      }

  receive-sent :
      (m : ControlMsg)
      → (process_control_msg c.globals m).max_control_msg_sent ≡ c.globals.max_control_msg_sent
  unfolding process_control_msg
  receive-sent m = ground arith

  receive-asked : (m : ControlMsg) → (process_control_msg c.globals m).num_msgs ≡ pos n
  unfolding process_control_msg
  receive-asked m = ground (arith, k.asked)

  receive-IsCounted :
      (before : List ControlMsg) (m : ControlMsg) (after : List ControlMsg)
      → IsCounted start n (after_receive before m after c)
  receive-IsCounted before m after =
      let kept = receive-sent m in
      let sent = c.globals.max_control_msg_sent in
      record {
        same =
            ap (λ h. process_control_msg h m) k.same
            ∙ sym (process_all-snoc (with_sent start sent) c.arrived m)
            ∙ ap (λ s. process_all (with_sent start s) (c.arrived ++ m ∷ [])) (sym kept);
        asked = receive-asked m;
        busy = λ t w. rw kept (k.busy t w);
        idle = λ t v w e. k.idle t v w (rw kept at e);
        ended = λ t v w e. rw kept (k.ended t v w e);
        others = λ t none. rw kept (k.others t none);
        distinct = rw kept k.distinct;
      }

-- Only the globals and the threads at work matter.
elsewhere-IsCounted :
    (start : Globals) (n : ℕ) (c : Config) (queue lost : List ControlMsg)
    → IsCounted start n c
    → IsCounted start n (record c { queue = queue; lost = lost })
elsewhere-IsCounted start n c queue lost k = record {
  same = k.same;
  asked = k.asked;
  busy = k.busy;
  idle = k.idle;
  ended = k.ended;
  others = k.others;
  distinct = k.distinct;
}

pub Step-IsCounted :
    (start : Globals) (n : ℕ) (c d : Config) → Step c d → IsCounted start n c → IsCounted start n d
Step-IsCounted start n c d (send t _ going works) k = send-IsCounted start n c k t works
Step-IsCounted start n c d (receive before m after _ going e first) k =
    receive-IsCounted start n c k before m after
Step-IsCounted start n c d (lose before m after _ e) k =
    elsewhere-IsCounted start n c (before ++ after) (m ∷ c.lost) k
Step-IsCounted start n c d (shut _ ended) k =
    elsewhere-IsCounted start n c (c.queue ++ exit_msg ∷ []) c.lost k
