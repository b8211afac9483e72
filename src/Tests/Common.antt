-- ===== src/Tests/Common.antt =====
-- Lines of `log_msg`.
use zmqtests.Base.{◌-◌, ◌≡◌, ◌≤◌, refl, none, some, [], ◌∷◌, ◌++◌, length, take, drop, arith}
use zmqtests.Base.Int.{pos, negsuc}
use zmqtests.Base.Text.{Bytes, bytes}
use zmqtests.Zmq.{done}
use zmqtests.Clib.Decimal.{atoi}
use zmqtests.Common.{Clock, Printer, time_text, log_msg}
use zmqtests.Common.Lines.{clock, log_msg-fits, log_msg-reads}

abbrev ready_text : Bytes
ready_text = bytes "ready"

abbrev prints_ready : Printer
prints_ready n = record { rc = pos 5; text = take (n - 1) ready_text }

-- A time that no clock shows.
abbrev odd_time : Clock
odd_time = record {
  tm_hour = negsuc 2147483647;
  tm_min = pos 2147483647;
  tm_sec = negsuc 0;
  tv_usec = negsuc 9223372036854775807;
}

log_msg-fits_example :
    (log_msg (some prints_ready) odd_time
      ≡ done (time_text odd_time ++ (b'\t' ∷ (ready_text ++ b'\n' ∷ []))))
    × (log_msg none odd_time ≡ done (time_text odd_time ++ (b'\t' ∷ b'\n' ∷ [])))
    × (length (time_text odd_time ++ (b'\t' ∷ (ready_text ++ b'\n' ∷ []))) ≤ 1081)
log_msg-fits_example =
    log_msg-fits prints_ready odd_time (omega arith, omega arith) (omega arith, omega arith)
      (omega arith, omega arith) (omega arith, omega arith) (omega arith)

log_msg-reads_example :
    (line : Bytes) × (log_msg (some prints_ready) (clock 9 5 7 42) ≡ done line)
    × (atoi (take 2 line) ≡ pos 9)
    × (atoi (take 2 (drop 3 line)) ≡ pos 5)
    × (atoi (take 2 (drop 6 line)) ≡ pos 7)
    × (atoi (take 6 (drop 9 line)) ≡ pos 42)
    × (drop 16 line ≡ ready_text ++ b'\n' ∷ [])
log_msg-reads_example =
    log_msg-reads prints_ready 9 5 7 42 ready_text (omega arith) (omega arith) (omega arith)
      (omega arith) (omega arith) refl
