-- ===== src/Monitor/Decoding.antt =====
-- `monitorEvent` against an encoder of its frames.
use zmqtests.Base.{
  ℕ, zero, suc, ◌%◌, ◌/◌, ◌^◌, ◌≡◌, ◌<◌, refl, true, false, [], ◌∷◌, ◌++◌, length, drop, leb, arith,
}
use zmqtests.Base.Int.{pos}
use zmqtests.Base.Text.{Bytes}
use zmqtests.Zmq.{Addr, Env, World, done, zmq_msg_recv, monitor_line}
use zmqtests.Peer.Table.{zmq_max_endpoint_length}
use zmqtests.Monitor.Events.{EventCodes, get_zmq_event_name}
use zmqtests.Monitor.Frames.{
  little_endian, to_int, c_string, failed_recv, endpoint_frame, monitor_event,
}

-- The `n` bytes of a number as x86 stores them.
unfoldable pub to_bytes : ℕ → ℕ → Bytes
to_bytes zero v = []
to_bytes (suc n) v = v % 256 ∷ to_bytes n (v / 256)

-- `zmq_monitor_frame1` of an event and a value.
abbrev pub event_frame : ℕ → ℕ → Bytes
event_frame e v = to_bytes 2 e ++ to_bytes 4 v

-- The frame, read back.
little_endian-event : (e v : ℕ) → e < 2 ^ 16 → little_endian 2 (event_frame e v) ≡ e
unfolding little_endian to_bytes
little_endian-event e v h = omega arith

little_endian-value : (e v : ℕ) → v < 2 ^ 32 → little_endian 4 (drop 2 (event_frame e v)) ≡ v
unfolding little_endian to_bytes
little_endian-value e v h = omega arith

length-event_frame : (e v : ℕ) → length (event_frame e v) ≡ 6
unfolding to_bytes
length-event_frame e v = refl

-- Two frames of an event arrive at the monitor socket: event and value, then the endpoint.
pub record Arrives (env : Env) (socket : Addr) (e v : ℕ) (endpoint : Bytes) {G : Type 0}
    (w : World G) : Type 0 where
  pub first_received : failed_recv (env w.calls (zmq_msg_recv socket)) ≡ false
  pub first_more : (env w.calls (zmq_msg_recv socket)).more ≡ true
  pub first_text : (env w.calls (zmq_msg_recv socket)).text ≡ event_frame e v
  pub second_received :
      failed_recv (env (zmq_msg_recv socket ∷ w.calls) (zmq_msg_recv socket)) ≡ false
  pub second_last : (env (zmq_msg_recv socket ∷ w.calls) (zmq_msg_recv socket)).more ≡ false
  pub second_text : (env (zmq_msg_recv socket ∷ w.calls) (zmq_msg_recv socket)).text ≡ endpoint

-- `monitorEvent` on the two frames of an event, with an endpoint of at most 256 bytes, returns 0
-- and writes one line with this event, its name, this value as an `int` and this endpoint up to
-- its first zero byte. It reads two frames and changes nothing else.
pub monitor_event-decodes :
    (codes : EventCodes) {G : Type 0} (env : Env) (socket : Addr) (name : Bytes) (e v : ℕ)
    (endpoint : Bytes) (w : World G)
    → e < 2 ^ 16
    → v < 2 ^ 32
    → leb (length endpoint) zmq_max_endpoint_length ≡ true
    → Arrives env socket e v endpoint w
    → monitor_event codes socket name env w ≡ (
      done (pos 0),
      record {
        calls = zmq_msg_recv socket ∷ zmq_msg_recv socket ∷ w.calls;
        log =
            monitor_line name e (to_int v) (get_zmq_event_name codes e) (c_string endpoint) ∷ w.log;
        vars = w.vars;
      },
    )
unfolding monitor_event endpoint_frame
monitor_event-decodes codes env socket name e v endpoint w small fits short a = grind (
  arith,
  little_endian-event e v small,
  little_endian-value e v fits,
  length-event_frame e v,
  a.first_received,
  a.first_more,
  a.first_text,
  a.second_received,
  a.second_last,
  a.second_text,
  short,
)
