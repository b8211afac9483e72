-- ===== src/Params/Issue3186.antt =====
-- `3186/params.c`.
pub mod RoundTrip
use zmqtests.Base.{List, [], ◌∷◌}
use zmqtests.Base.Int.{ℤ, pos}
use zmqtests.Base.Text.{Bytes, bytes}
use zmqtests.Params.{Rule, flag, number, Parsed, parse_args}
use zmqtests.Peer.Issue3186.{Params}
use zmqtests.Peer.Issue3186.Main.{Options}

abbrev pub set_seconds : ℤ → Options → Options
set_seconds v o = record o { seconds = v }

abbrev pub set_sleep_at_exit : ℤ → Options → Options
set_sleep_at_exit v o = record o { sleep_at_exit = v }

abbrev pub set_port : ℤ → Options → Options
set_port v o = record o { port = v }

abbrev pub set_disable_reconnect : ℤ → Options → Options
set_disable_reconnect v o = record o { disable_reconnect = v }

abbrev pub set_fix1256 : ℤ → Options → Options
set_fix1256 v o = record o { loop = record (o.loop) { fix1256 = v } }

abbrev pub set_send_after_disconnect : ℤ → Options → Options
set_send_after_disconnect v o = record o { loop = record (o.loop) { send_after_disconnect = v } }

abbrev pub set_immediate_exit : ℤ → Options → Options
set_immediate_exit v o = record o { loop = record (o.loop) { immediate_exit = v } }

abbrev pub set_duplicate_disconnect : ℤ → Options → Options
set_duplicate_disconnect v o = record o { loop = record (o.loop) { duplicate_disconnect = v } }

abbrev pub set_linger : ℤ → Options → Options
set_linger v o = record o { linger = v }

abbrev pub set_poll_after_disconnect : ℤ → Options → Options
set_poll_after_disconnect v o = record o { loop = record (o.loop) { poll_after_disconnect = v } }

abbrev pub set_long_lived : ℤ → Options → Options
set_long_lived v o = record o { long_lived = v }

abbrev pub set_early_linger : ℤ → Options → Options
set_early_linger v o = record o { early_linger = v }

abbrev pub set_socket_monitor : ℤ → Options → Options
set_socket_monitor v o = record o { socket_monitor = v }

-- The values that the variables are defined with.
abbrev pub defaults : Options
defaults = record {
  seconds = pos 0;
  sleep_at_exit = pos 0;
  port = pos 0;
  disable_reconnect = pos 0;
  linger = pos 0;
  long_lived = pos 0;
  early_linger = pos 0;
  socket_monitor = pos 0;
  loop = record {
    fix1256 = pos 0;
    send_after_disconnect = pos 0;
    immediate_exit = pos 0;
    duplicate_disconnect = pos 0;
    poll_after_disconnect = pos 0;
  };
}

unfoldable pub rules : List (Rule Options)
rules =
    number (bytes "-seconds") set_seconds
    ∷ number (bytes "-sleep-at-exit") set_sleep_at_exit
    ∷ number (bytes "-port") set_port
    ∷ flag (bytes "-disable-reconnect") (set_disable_reconnect (pos 1))
    ∷ flag (bytes "-fix1256") (set_fix1256 (pos 1))
    ∷ flag (bytes "-send-after-disconnect") (set_send_after_disconnect (pos 1))
    ∷ flag (bytes "-immediate-exit") (set_immediate_exit (pos 1))
    ∷ flag (bytes "-duplicate-disconnect") (set_duplicate_disconnect (pos 1))
    ∷ number (bytes "-linger") set_linger
    ∷ flag (bytes "-poll-after-disconnect") (set_poll_after_disconnect (pos 1))
    ∷ flag (bytes "-long-lived") (set_long_lived (pos 1))
    ∷ flag (bytes "-early-linger") (set_early_linger (pos 1))
    ∷ flag (bytes "-monitor-sockets") (set_socket_monitor (pos 1))
    ∷ []

unfoldable pub parse_params : List Bytes → Parsed Options
unfolding rules
parse_params args = parse_args rules defaults args
