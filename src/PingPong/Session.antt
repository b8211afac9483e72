-- ===== src/PingPong/Session.antt =====
-- What ping and pong send each other while their loops run (`pingpong/ping.cpp`, `pingpong/pong.cpp`).
use zmqtests.Base.{
  ℕ, zero, suc, ◌+◌, ◌≤◌, ◌≡◌, refl, sym, ap, ◌∙◌, true, false, List, [], ◌∷◌, ◌++◌, ◌==◌,
  if◌then◌else◌, length, drop, arith,
}
use mathlib.Core.List.{append-nil, append_assoc}
use zmqtests.Base.Int.{pos, ltb_ℤ}
use zmqtests.Base.Text.{Bytes, bytes, str_eq, str_eq_refl}
use zmqtests.Zmq.{
  Addr, Call, RequestMsg, request, no_flag, zmq_send, zmq_recv, zmq_recv_now, Env, World, done,
}
use zmqtests.Zmq.Monad.{logged}
use zmqtests.Params.PingPong.{Options}
use zmqtests.PingPong.Sockets.{Sockets, wait_for}
use zmqtests.PingPong.Ping.{request_msg, read_answer, ping_round, ping_loop}
use zmqtests.PingPong.Pong.{typed, read_call, pong_round, pong_loop}

-- The requests and answers sent on a socket, in their order.
unfoldable pub published : Addr → List Call → List RequestMsg
published p [] = []
published p (zmq_send q (request m) f ∷ cs) =
    let rest = published p cs in if q == p then rest ++ (m ∷ []) else rest
published p (_ ∷ cs) = published p cs

-- How often a socket has been read.
unfoldable pub reads : Addr → List Call → ℕ
reads s [] = 0
reads s (zmq_recv q ∷ cs) = let rest = reads s cs in if q == s then suc rest else rest
reads s (zmq_recv_now q ∷ cs) = let rest = reads s cs in if q == s then suc rest else rest
reads s (_ ∷ cs) = reads s cs

-- The reads of a socket by `c` succeed and return these messages, in their order, as far as they go.
pub record Hears (env : Env) (s : Addr) (c : Call) (ms : List RequestMsg) : Type 0 where
  pub heard :
      (cs : List Call) (m : RequestMsg) (rest : List RequestMsg)
      → drop (reads s cs) ms ≡ m ∷ rest
      → ((env cs c).request_msg ≡ m) × (ltb_ℤ (env cs c).rc (pos 0) ≡ false)

-- What pong sends for the requests that it reads.
unfoldable pub answers : List RequestMsg → List RequestMsg
answers [] = []
answers (m ∷ ms) = typed m (bytes "ack") ∷ typed m (bytes "response") ∷ answers ms

-- The requests that ping sends are all the same.
unfoldable pub requests : ℕ → List RequestMsg
requests zero = []
requests (suc n) = request_msg ∷ requests n

abbrev pub AllRequests : List RequestMsg → Type 0
AllRequests [] = Unit {0}
AllRequests (m ∷ ms) = (str_eq m.type_name (bytes "request") ≡ true) × AllRequests ms

drop-suc :
    (n : ℕ) (ms : List RequestMsg) (m : RequestMsg) (rest : List RequestMsg)
    → drop n ms ≡ m ∷ rest
    → drop (suc n) ms ≡ rest
drop-suc zero [] m rest e = cc
drop-suc (suc n) [] m rest e = cc
drop-suc zero (x ∷ ms) m rest e = cc
drop-suc (suc n) (x ∷ ms) m rest e = drop-suc n ms m rest e

module _ (o : Options) (s : Sockets) (env : Env) where
  wait_for-quiet :
      (w : World (Unit {0}))
      → ((wait_for o s env w).0 ≡ done tt)
        × (published s.publisher (wait_for o s env w).1.calls ≡ published s.publisher w.calls)
        × (reads s.subscriber (wait_for o s env w).1.calls ≡ reads s.subscriber w.calls)
  unfolding wait_for published reads
  wait_for-quiet w = grind arith

  reads-read_call :
      (cs : List Call)
      → reads s.subscriber (read_call o s.subscriber ∷ cs) ≡ suc (reads s.subscriber cs)
  unfolding reads
  reads-read_call cs = grind arith

  published-read_call :
      (cs : List Call)
      → published s.publisher (read_call o s.subscriber ∷ cs) ≡ published s.publisher cs
  unfolding published
  published-read_call cs = grind arith

  module _ (ms : List RequestMsg) (h : Hears env s.subscriber (read_call o s.subscriber) ms) where
    pong_round-run :
        (w : World (Unit {0})) (m : RequestMsg) (rest : List RequestMsg)
        → drop (reads s.subscriber w.calls) ms ≡ m ∷ rest
        → str_eq m.type_name (bytes "request") ≡ true
        → ((pong_round o s env w).0 ≡ done tt)
          × (published s.publisher (pong_round o s env w).1.calls
              ≡ (published s.publisher w.calls ++ (typed m (bytes "ack") ∷ []))
                ++ (typed m (bytes "response") ∷ []))
          × (reads s.subscriber (pong_round o s env w).1.calls ≡ suc (reads s.subscriber w.calls))
    unfolding pong_round published reads
    pong_round-run w m rest here is =
        let w1 = (wait_for o s env w).1 in
        let quiet = wait_for-quiet w in
        let got = h.heard w1.calls m rest (ground (arith, quiet.2, here)) in
        (
          grind (arith, quiet.0, got),
          grind (arith, quiet.0, quiet.1, got, published-read_call w1.calls),
          grind (arith, quiet.0, quiet.2, got, reads-read_call w1.calls),
        )

    -- A round for each of the next messages, while they are requests.
    pub pong_loop-run :
        (w : World (Unit {0})) (next : List RequestMsg)
        → drop (reads s.subscriber w.calls) ms ≡ next
        → AllRequests next
        → ((pong_loop o s (length next) env w).0 ≡ done tt)
          × (published s.publisher (pong_loop o s (length next) env w).1.calls
              ≡ published s.publisher w.calls ++ answers next)
    unfolding pong_loop answers
    pong_loop-run w [] here is = (refl, sym (append-nil _))
    pong_loop-run w (m ∷ rest) here is =
        let w1 = (pong_round o s env w).1 in
        let run = pong_round-run w m rest here is.0 in
        let ih =
          pong_loop-run w1 rest
            (ap (λ n. drop n ms) run.2 ∙ drop-suc (reads s.subscriber w.calls) ms m rest here)
            is.1 in
        (ground (arith, run.0, ih.0), grind (arith, run.0, run.1, ih.1, append_assoc))

  module _ (ms : List RequestMsg) (h : Hears env s.subscriber (zmq_recv s.subscriber) ms) where
    read_answer-run :
        (type_name : Bytes) (old : RequestMsg) (w : World (Unit {0})) (m : RequestMsg)
        (rest : List RequestMsg)
        → drop (reads s.subscriber w.calls) ms ≡ m ∷ rest
        → str_eq m.type_name type_name ≡ true
        → ((read_answer s.subscriber type_name old env w).0 ≡ done m)
          × (published s.publisher (read_answer s.subscriber type_name old env w).1.calls
              ≡ published s.publisher w.calls)
          × (reads s.subscriber (read_answer s.subscriber type_name old env w).1.calls
              ≡ suc (reads s.subscriber w.calls))
    unfolding read_answer published reads
    read_answer-run type_name old w m rest here is =
        let got = h.heard w.calls m rest here in
        (grind (arith, got), grind (arith, got), grind (arith, got))

    ping_round-run :
        (w : World (Unit {0})) (q : RequestMsg) (rest : List RequestMsg)
        → drop (reads s.subscriber w.calls) ms ≡ answers (q ∷ rest)
        → ((ping_round o s env w).0 ≡ done tt)
          × (published s.publisher (ping_round o s env w).1.calls
              ≡ published s.publisher w.calls ++ (request_msg ∷ []))
          × (reads s.subscriber (ping_round o s env w).1.calls
              ≡ suc (suc (reads s.subscriber w.calls)))
    unfolding ping_round published reads answers
    ping_round-run w q rest here =
        let first = reads s.subscriber w.calls in
        let ack = typed q (bytes "ack") in
        let response = typed q (bytes "response") in
        let w1 = (logged (zmq_send s.publisher (request request_msg) no_flag) env w).1 in
        let w2 = (wait_for o s env w1).1 in
        let quiet2 = wait_for-quiet w1 in
        let read3 =
          read_answer-run (bytes "ack") request_msg w2 ack (response ∷ answers rest)
            (ap (λ n. drop n ms) quiet2.2 ∙ here) (str_eq_refl (bytes "ack")) in
        let w3 = (read_answer s.subscriber (bytes "ack") request_msg env w2).1 in
        let w4 = (wait_for o s env w3).1 in
        let quiet4 = wait_for-quiet w3 in
        let count = quiet4.2 ∙ read3.2 ∙ ap suc quiet2.2 in
        let here4 = drop-suc first ms ack (response ∷ answers rest) here in
        let read5 =
          read_answer-run (bytes "response") ack w4 response (answers rest)
            (ap (λ n. drop n ms) count ∙ here4) (str_eq_refl (bytes "response")) in
        (
          ground (arith, quiet2, read3, quiet4, read5),
          ground (arith, quiet2, read3, quiet4, read5),
          ground (arith, quiet2, read3, quiet4, read5),
        )

    -- A round for each of the next two answers, up to the number of messages.
    pub ping_loop-run :
        (w : World (Unit {0})) (k fuel : ℕ) (next : List RequestMsg)
        → drop (reads s.subscriber w.calls) ms ≡ answers next
        → o.num_requests ≡ pos (suc (k + length next))
        → length next ≤ fuel
        → ((ping_loop o s (suc fuel) k env w).0 ≡ done true)
          × (published s.publisher (ping_loop o s (suc fuel) k env w).1.calls
              ≡ published s.publisher w.calls ++ requests (length next))
    unfolding ping_loop answers requests
    ping_loop-run w k fuel [] here asked p = (ground arith, grind (arith, append-nil))
    ping_loop-run w k zero (q ∷ rest) here asked p = absurd (omega arith)
    ping_loop-run w k (suc fuel) (q ∷ rest) here asked p =
        let first = reads s.subscriber w.calls in
        let ack = typed q (bytes "ack") in
        let response = typed q (bytes "response") in
        let w1 = (ping_round o s env w).1 in
        let run = ping_round-run w q rest here in
        let second = drop-suc first ms ack (response ∷ answers rest) here in
        let third = drop-suc (suc first) ms response (answers rest) second in
        let ih =
          ping_loop-run w1 (suc k) fuel rest (ap (λ n. drop n ms) run.2 ∙ third)
            (ground (arith, asked)) (omega arith) in
        (ground (arith, asked, run.0, ih.0), grind (arith, asked, run.0, run.1, ih.1, append_assoc))
