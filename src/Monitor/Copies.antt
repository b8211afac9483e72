-- ===== src/Monitor/Copies.antt =====
-- The functions that two or three monitor.cpp files have word for word: each name here is the
-- function of the directory that it ends in.
use zmqtests.Base.{ℕ}
use zmqtests.Base.Int.{ℤ}
use zmqtests.Base.Text.{Bytes}
use zmqtests.Zmq.{Addr, Routine}
use zmqtests.Zmq.Monad.{M}
use zmqtests.Monitor.Events.{EventCodes, get_zmq_event_name}
use zmqtests.Monitor.Frames.{monitor_event}
use zmqtests.Monitor.Lifecycle.{Handles, start_monitor, start_monitor_with, stop_monitor}

abbrev pub get_zmq_event_name_3186 : EventCodes → ℕ → Bytes
get_zmq_event_name_3186 = get_zmq_event_name

abbrev pub monitor_event_reconnect : EventCodes → {G : Type 0} → Addr → Bytes → M G ℤ
monitor_event_reconnect = monitor_event

abbrev pub monitor_event_connect : EventCodes → {G : Type 0} → Addr → Bytes → M G ℤ
monitor_event_connect = monitor_event

abbrev pub start_monitor_reconnect : Addr → M Handles (Unit {0})
start_monitor_reconnect = start_monitor

abbrev pub start_monitor_connect : Addr → M Handles (Unit {0})
start_monitor_connect = start_monitor

abbrev pub start_monitor_with_reconnect : Addr → Routine → M Handles (Unit {0})
start_monitor_with_reconnect = start_monitor_with

abbrev pub stop_monitor_3186 : M Handles (Unit {0})
stop_monitor_3186 = stop_monitor

abbrev pub stop_monitor_reconnect : M Handles (Unit {0})
stop_monitor_reconnect = stop_monitor
