-- ===== src/Common.antt =====
-- `getTimestamp`, `log_msg` and the two `kickSocket` of `3186/common.c`. What `localtime_r` and
-- `gettimeofday` give is an argument, and so is what `vsnprintf` makes of the format and the
-- values behind it. `reconnect/common.c`, `connect/common.c` and `pingpong/common.c` have these
-- functions word for word.
pub mod Copies
pub mod Pieces
pub mod Lines
use zmqtests.Base.{
  ℕ, ◌-◌, Bool, Option, none, some, [], ◌∷◌, ◌++◌, length, take, ltb, if◌then◌else◌,
}
use zmqtests.Base.Int.{ℤ, negsuc, eqb_ℤ}
use zmqtests.Base.Text.{Bytes, bytes}
use zmqtests.Zmq.{Addr, Call, zmq_getsockopt, zmq_events, Outcome, done, aborted}
use zmqtests.Clib.Padded.{padded}

-- The fields of `struct tm` and `struct timeval` that are printed.
pub record Clock : Type 0 where
  pub tm_hour : ℤ
  pub tm_min : ℤ
  pub tm_sec : ℤ
  pub tv_usec : ℤ

-- What `vsnprintf` returns for a size, and the text that it leaves in the array, up to the closing
-- zero.
pub record Written : Type 0 where
  pub rc : ℤ
  pub text : Bytes

abbrev pub Printer : Type 0
Printer = ℕ → Written

-- `sizeof localBuf`
abbrev pub local_buf_size : ℕ
local_buf_size = 64

abbrev pub max_log_msg_size : ℕ
max_log_msg_size = 1024

-- `sprintf` of `"%02d:%02d:%02d.%06ld"`
unfoldable pub time_text : Clock → Bytes
time_text t =
    padded 2 t.tm_hour
    ++ (b':' ∷ (padded 2 t.tm_min ++ (b':' ∷ (padded 2 t.tm_sec ++ (b'.' ∷ padded 6 t.tv_usec)))))

-- The text with its closing zero fits the array, or the program has no meaning.
unfoldable pub get_timestamp : Clock → Outcome Bytes
unfolding time_text
get_timestamp t = if ltb (length (time_text t)) local_buf_size then done (time_text t) else aborted

-- What stands in `temp`, which begins as all zeros and has room for one byte more than the limit.
-- Without a format it stays empty, and a failed `vsnprintf` leaves what it has written.
unfoldable pub formatted : Option Printer → Outcome Bytes
formatted none = done []
formatted (some print) =
    let r = print max_log_msg_size in
    let kept = if eqb_ℤ r.rc (negsuc 0) then take max_log_msg_size r.text else r.text in
    if ltb max_log_msg_size (length r.text) then aborted else done kept

-- The line on stderr.
unfoldable pub log_msg : Option Printer → Clock → Outcome Bytes
unfolding formatted get_timestamp
log_msg format t = elim (formatted format) [
  | aborted ↦ aborted
  | done temp ↦ elim (get_timestamp t) [
    | aborted ↦ aborted
    | done stamp ↦ done (stamp ++ (b'\t' ∷ (temp ++ b'\n' ∷ [])))
  ]
]

-- The code behind `#if 1`.
abbrev pub kick_socket : Addr → Call
kick_socket socket = zmq_getsockopt socket zmq_events

abbrev pub kick_socket_2 : Addr → Call
kick_socket_2 socket = zmq_getsockopt socket zmq_events
