-- ===== src/Tests/Monitor.antt =====
-- A run of `monitorEvent`.
use zmqtests.Base.{◌≡◌, refl, true, List, [], ◌∷◌, arith}
use zmqtests.Base.Int.{pos}
use zmqtests.Base.Text.{Bytes, bytes}
use zmqtests.Tests.{no_reply}
use zmqtests.Zmq.{zmq_send, Call, zmq_msg_recv, Reply, Env, World, done, monitor_line}
use zmqtests.Monitor.Events.{EventCodes, get_zmq_event_name}
use zmqtests.Monitor.Frames.{to_int, c_string, monitor_event}
use zmqtests.Monitor.Decoding.{event_frame, Arrives, monitor_event-decodes}

abbrev sample_codes : EventCodes
sample_codes = record {
  connected = 1;
  connect_delayed = 2;
  connect_retried = 4;
  listening = 8;
  bind_failed = 16;
  accepted = 32;
  accept_failed = 64;
  closed = 128;
  close_failed = 256;
  disconnected = 512;
  monitor_stopped = 1024;
}

abbrev where_to : Bytes
where_to = bytes "tcp://127.0.0.1:7001"

-- The two frames of a disconnect event.
abbrev event_reply : List Call → Call → Reply
event_reply [] c = record no_reply { text = event_frame 512 9; more = true }
event_reply (k ∷ cs) c = record no_reply { text = where_to }

abbrev event_arrives : Env
event_arrives = event_reply

abbrev at_start : World Unit
at_start = record { calls = []; log = []; vars = tt }

at_start-Arrives : Arrives event_arrives 4 512 9 where_to at_start
at_start-Arrives = record {
  first_received = refl;
  first_more = refl;
  first_text = refl;
  second_received = refl;
  second_last = refl;
  second_text = refl;
}

monitor_event-decodes_example :
    monitor_event sample_codes 4 (bytes "dataSub") event_arrives at_start ≡ (
      done (pos 0),
      record {
        calls = zmq_msg_recv 4 ∷ zmq_msg_recv 4 ∷ [];
        log =
            monitor_line
              (bytes "dataSub")
              512
              (to_int 9)
              (get_zmq_event_name sample_codes 512)
              (c_string where_to)
            ∷ [];
        vars = tt;
      },
    )
monitor_event-decodes_example =
    monitor_event-decodes sample_codes event_arrives 4 (bytes "dataSub") 512 9 where_to at_start
      (omega arith) (omega arith) refl at_start-Arrives

-- Every call succeeds, with 1 for the message of one byte.
abbrev steady_reply : List Call → Call → Reply
steady_reply cs (zmq_send s m f) = record no_reply { rc = pos 1 }
steady_reply cs c = record no_reply { ptr = 6 }

abbrev steady : Env
steady = steady_reply
