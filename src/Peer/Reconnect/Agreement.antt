-- ===== src/Peer/Reconnect/Agreement.antt =====
-- `reconnect/peer.cpp` against `3186/peer.cpp`.
use zmqtests.Base.{◌≡◌, ◌≢◌, false, arith}
use zmqtests.Base.Int.{pos}
use zmqtests.Zmq.{Addr, ConnectMsg, Env, World, done}
use zmqtests.Peer.Table.{bytes_key, Peers, welcome_command}
use zmqtests.Peer.Issue3186
use zmqtests.Peer.Reconnect.{Setup, handle_welcome, handle_connect, handle_disconnect, handle_msg}

-- The same peer in the other program, with all switches off.
abbrev pub plain : Setup → Addr → Issue3186.Setup
plain s data_pub = record {
  params = record {
    fix1256 = pos 0;
    send_after_disconnect = pos 0;
    immediate_exit = pos 0;
    duplicate_disconnect = pos 0;
    poll_after_disconnect = pos 0;
  };
  the_uuid = s.the_uuid;
  pub_endpoint = s.pub_endpoint;
  data_pub = data_pub;
  proxy_pub = s.proxy_pub;
  proxy_sub = s.proxy_sub;
  data_sub = s.data_sub;
  end_time = pos 0;
}

-- `reconnect/peer.cpp` against `3186/peer.cpp` with all its switches off, for the same peer: a
-- message that is no welcome message has the same effect in both, the same result, the same
-- calls in the same order, the same lines and the same table. After a welcome message both go on, and
-- neither has changed its table. Nothing is assumed of the calls' replies or of the strings.
pub handle_msg-agrees :
    (s : Setup) (data_pub : Addr) (env : Env) (msg : ConnectMsg) (w : World Peers)
    → (msg.command ≢ welcome_command
        → Issue3186.handle_msg (plain s data_pub) msg env w ≡ handle_msg s msg env w)
      × (msg.command ≡ welcome_command
          → ((Issue3186.handle_msg (plain s data_pub) msg env w).0 ≡ done false)
            × ((handle_msg s msg env w).0 ≡ done false)
            × ((Issue3186.handle_msg (plain s data_pub) msg env w).1.vars ≡ w.vars)
            × ((handle_msg s msg env w).1.vars ≡ w.vars))
unfolding handle_msg handle_welcome handle_connect handle_disconnect Issue3186.handle_msg
    Issue3186.handle_welcome Issue3186.handle_connect Issue3186.handle_disconnect Issue3186.is_on
handle_msg-agrees s data_pub env msg w =
    (λ other. ground arith, λ welcome. (ground arith, ground arith, ground arith, ground arith))
