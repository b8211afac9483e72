-- ===== src/Monitor/Events.antt =====
-- `get_zmqEventName`, which the three monitor.cpp files have word for word. The eleven events of
-- zmq.h are parameters; the four of the files themselves are constants.
use zmqtests.Base.{ℕ, List, [], ◌∷◌, none, some, ==_iff, ◌==◌}
use zmqtests.Base.Table.{Key, lookup}
use zmqtests.Base.Text.{Bytes, bytes}

instance abbrev pub code_key : Key ℕ
code_key = record { same = ◌==◌; same_iff = ==_iff }

-- The values of `ZMQ_EVENT_…` in zmq.h.
pub record EventCodes : Type 0 where
  pub connected : ℕ
  pub connect_delayed : ℕ
  pub connect_retried : ℕ
  pub listening : ℕ
  pub bind_failed : ℕ
  pub accepted : ℕ
  pub accept_failed : ℕ
  pub closed : ℕ
  pub close_failed : ℕ
  pub disconnected : ℕ
  pub monitor_stopped : ℕ

abbrev pub handshake_failed_no_detail : ℕ
handshake_failed_no_detail = 0x0800

abbrev pub handshake_succeeded : ℕ
handshake_succeeded = 0x1000

abbrev pub handshake_failed_protocol : ℕ
handshake_failed_protocol = 0x2000

abbrev pub handshake_failed_auth : ℕ
handshake_failed_auth = 0x4000

-- The cases of the switch.
unfoldable pub event_names : EventCodes → List (ℕ × Bytes)
event_names c =
    (c.connected, bytes "CONNECTED")
    ∷ (c.connect_delayed, bytes "CONNECT_DELAYED")
    ∷ (c.connect_retried, bytes "CONNECT_RETRIED")
    ∷ (c.listening, bytes "LISTENING")
    ∷ (c.bind_failed, bytes "BIND_FAILED")
    ∷ (c.accepted, bytes "ACCEPTED")
    ∷ (c.accept_failed, bytes "ACCEPT_FAILED")
    ∷ (c.closed, bytes "CLOSED")
    ∷ (c.close_failed, bytes "CLOSE_FAILED")
    ∷ (c.disconnected, bytes "DISCONNECTED")
    ∷ (c.monitor_stopped, bytes "MONITOR_STOPPED")
    ∷ (handshake_failed_no_detail, bytes "HANDSHAKE_FAILED_NO_DETAIL")
    ∷ (handshake_succeeded, bytes "HANDSHAKE_SUCCEEDED")
    ∷ (handshake_failed_protocol, bytes "HANDSHAKE_FAILED_PROTOCOL")
    ∷ (handshake_failed_auth, bytes "HANDSHAKE_FAILED_AUTH")
    ∷ []

unfoldable pub get_zmq_event_name : EventCodes → ℕ → Bytes
unfolding event_names
get_zmq_event_name c event = elim (lookup event (event_names c)) [
  | none ↦ bytes "UNKNOWN"
  | some name ↦ name
]
