-- ===== src/Monitor/Frames.antt =====
-- `monitorEvent` of the monitor.cpp files and `monitorEvent_v2` of `connect/monitor.cpp`: the
-- frames of an event, byte by byte as x86 stores them. Where a frame is shorter than what is read
-- of it, or longer than the array that it is copied to, the programs have no meaning, and the
-- model aborts.
use zmqtests.Base.{
  ℕ, zero, suc, ◌+◌, ◌-◌, ◌*◌, ◌%◌, ◌^◌, Bool, not, [], ◌∷◌, ◌==◌, length, drop, ltb, leb,
  if◌then◌else◌,
}
use zmqtests.Base.Int.{ℤ, pos, negsuc, eqb_ℤ}
use zmqtests.Base.Text.{Bytes}
use zmqtests.Zmq.{Addr, Reply, zmq_msg_recv, monitor_line, monitor_line_v2}
use zmqtests.Zmq.Monad.{M, ◌>>=◌, ◌>>◌, ret, call, diag, assert}
use zmqtests.Peer.Table.{zmq_max_endpoint_length}
use zmqtests.Monitor.Events.{EventCodes, get_zmq_event_name}

-- A little-endian number of `n` bytes.
unfoldable pub little_endian : ℕ → Bytes → ℕ
little_endian zero bs = 0
little_endian (suc n) [] = 0
little_endian (suc n) (b ∷ bs) = b + 256 * little_endian n bs

-- A `uint32_t` as an `int`.
unfoldable pub to_int : ℕ → ℤ
to_int v = if ltb v (2 ^ 31) then pos v else negsuc (2 ^ 32 - 1 - v)

-- What `%s` prints of a zeroed array that the bytes were copied to.
unfoldable pub c_string : Bytes → Bytes
c_string [] = []
c_string (b ∷ bs) = if b == 0 then [] else b ∷ c_string bs

abbrev pub minus_one : ℤ
minus_one = negsuc 0

-- A received frame, or -1 where `zmq_msg_recv` has failed.
abbrev pub failed_recv : Reply → Bool
failed_recv r = eqb_ℤ r.rc minus_one

-- `uint64_t` of -1.
abbrev pub minus_one_u64 : ℕ
minus_one_u64 = 2 ^ 64 - 1

module _ (codes : EventCodes) {G : Type 0} where
  -- The second frame and the line.
  unfoldable pub endpoint_frame : Addr → Bytes → Bytes → M G ℤ
  unfolding little_endian to_int c_string
  endpoint_frame socket name frame_1 = do
    r ← call (zmq_msg_recv socket)
    (if failed_recv r then ret minus_one else (do
      assert (not r.more)
      assert (leb (length r.text) zmq_max_endpoint_length)
      diag (
          monitor_line name (little_endian 2 frame_1) (to_int (little_endian 4 (drop 2 frame_1)))
            (get_zmq_event_name codes (little_endian 2 frame_1)) (c_string r.text))
      ret (pos 0)))

  unfoldable pub monitor_event : Addr → Bytes → M G ℤ
  unfolding endpoint_frame
  monitor_event socket name = do
    r ← call (zmq_msg_recv socket)
    (if failed_recv r
        then ret minus_one
        else (do assert r.more; assert (leb 6 (length r.text)); endpoint_frame socket name r.text))

  -- The frames of the values; the last one counts.
  unfoldable pub value_frames : Addr → ℕ → ℕ → (ℕ → M G ℕ) → M G ℕ
  value_frames socket zero value k = k value
  value_frames socket (suc n) value k = do
    r ← call (zmq_msg_recv socket)
    (if failed_recv r
        then ret minus_one_u64
        else (do assert (leb 8 (length r.text)); value_frames socket n (little_endian 8 r.text) k))

  unfoldable pub address_frames : Addr → Bytes → ℕ → ℕ → M G ℕ
  unfolding c_string
  address_frames socket name event value = do
    r ← call (zmq_msg_recv socket)
    (if failed_recv r then ret minus_one_u64 else (do
      assert (leb (length r.text) zmq_max_endpoint_length)
      q ← call (zmq_msg_recv socket)
      (if failed_recv q then ret minus_one_u64 else (do
        assert (leb (length q.text) zmq_max_endpoint_length)
        diag (
            monitor_line_v2 name (get_zmq_event_name codes (event % 2 ^ 32)) value (c_string r.text)
              (c_string q.text))
        ret 0))))

  unfoldable pub monitor_event_v2 : Addr → Bytes → M G ℕ
  unfolding little_endian value_frames address_frames
  monitor_event_v2 socket name = do
    r ← call (zmq_msg_recv socket)
    (if failed_recv r then ret minus_one_u64 else (do
      assert (leb 8 (length r.text))
      q ← call (zmq_msg_recv socket)
      (if failed_recv q then ret minus_one_u64 else (do
        assert (leb 8 (length q.text))
        value_frames socket (little_endian 8 q.text) 0
            (address_frames socket name (little_endian 8 r.text))))))
