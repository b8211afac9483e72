-- ===== src/Common/Copies.antt =====
-- The functions of `3186/common.c` that the other three common.c files have word for word: each name
-- here is the function of the directory that it ends in.
use zmqtests.Base.{Option}
use zmqtests.Base.Text.{Bytes}
use zmqtests.Zmq.{Addr, Call, Outcome}
use zmqtests.Common.{Clock, Printer, get_timestamp, log_msg, kick_socket, kick_socket_2}

abbrev pub kick_socket_reconnect : Addr → Call
kick_socket_reconnect = kick_socket

abbrev pub kick_socket_2_reconnect : Addr → Call
kick_socket_2_reconnect = kick_socket_2

abbrev pub get_timestamp_reconnect : Clock → Outcome Bytes
get_timestamp_reconnect = get_timestamp

abbrev pub log_msg_reconnect : Option Printer → Clock → Outcome Bytes
log_msg_reconnect = log_msg

abbrev pub kick_socket_connect : Addr → Call
kick_socket_connect = kick_socket

abbrev pub kick_socket_2_connect : Addr → Call
kick_socket_2_connect = kick_socket_2

abbrev pub get_timestamp_connect : Clock → Outcome Bytes
get_timestamp_connect = get_timestamp

abbrev pub log_msg_connect : Option Printer → Clock → Outcome Bytes
log_msg_connect = log_msg

abbrev pub kick_socket_2_pingpong : Addr → Call
kick_socket_2_pingpong = kick_socket_2

abbrev pub get_timestamp_pingpong : Clock → Outcome Bytes
get_timestamp_pingpong = get_timestamp

abbrev pub log_msg_pingpong : Option Printer → Clock → Outcome Bytes
log_msg_pingpong = log_msg
