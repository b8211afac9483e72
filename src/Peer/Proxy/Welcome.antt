-- ===== src/Peer/Proxy/Welcome.antt =====
-- The message with which the proxies of `3186/` and `reconnect/` welcome a peer.
use zmqtests.Base.Text.{Bytes}
use zmqtests.Zmq.{ConnectMsg}
use zmqtests.Peer.Table.{welcome_command}

-- The welcome message of a proxy.
abbrev pub welcome : Bytes → Bytes → ConnectMsg
welcome the_uuid e = record { command = welcome_command; uuid = the_uuid; endpoint = e }
