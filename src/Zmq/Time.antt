-- ===== src/Zmq/Time.antt =====
-- Times as the programs hand them to `usleep`.
use zmqtests.Base.{◌+◌, ◌*◌}
use zmqtests.Base.Int.{ℤ, pos, negsuc}

-- Seconds in microseconds.
abbrev pub microseconds : ℤ → ℤ
microseconds (pos n) = pos (1000000 * n)
microseconds (negsuc n) = negsuc (1000000 * n + 999999)
