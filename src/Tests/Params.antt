-- ===== src/Tests/Params.antt =====
-- Command lines of the programs.
use zmqtests.Base.{◌/◌, ◌≡◌, ◌≢◌, refl, true, false, [], ◌∷◌, ◌++◌, drop, arith}
use zmqtests.Base.Int.{ℤ, pos, negsuc}
use zmqtests.Base.Text.{bytes, str_eq}
use zmqtests.Clib.Compare.{strcasecmp, strncasecmp, to_lower}
use zmqtests.Params.{parsed, undefined, running, parse_args}
use zmqtests.Params.Line.{line, parse_args-ends}
use zmqtests.Params.Names.{misses, are_options}
use zmqtests.Params.Issue3186.RoundTrip.{
  Wish, options_of, wish_items, linger_option, parse_params-wish_items, parse_params-missing_value,
}
use zmqtests.Params.Reconnect.{address_items, parse_params-address_items}
use zmqtests.Params.PingPong.{Options}
use zmqtests.Threads.Globals.{initial}
use zmqtests.Threads.Params.CommandLine.{
  msgs_wish, linger_wish, debug_wish, command_line, is_no_option, grant_all,
  parse_params-command_line, parse_params-ends,
}
use zmqtests.Params.Issue3186
use zmqtests.Params.Reconnect
use zmqtests.Params.PingPong
use zmqtests.Threads.Params

abbrev pub sample : Wish
sample = record {
  seconds = pos 30;
  sleep_at_exit = pos 0;
  port = pos 7001;
  disable_reconnect = false;
  fix1256 = true;
  send_after_disconnect = false;
  immediate_exit = false;
  duplicate_disconnect = true;
  linger = negsuc 0;
  poll_after_disconnect = false;
  long_lived = false;
  early_linger = true;
  socket_monitor = true;
}

parse_params-wish_items_example :
    Issue3186.parse_params (line (wish_items sample)) ≡ parsed (options_of sample)
parse_params-wish_items_example =
    parse_params-wish_items sample (omega arith, omega arith) (omega arith, omega arith)
      (omega arith, omega arith) (omega arith, omega arith)

parse_params-missing_value_example :
    Issue3186.parse_params (line (wish_items sample) ++ bytes "-linger" ∷ []) ≡ undefined
parse_params-missing_value_example =
    parse_params-missing_value sample (bytes "-linger") linger_option

pub local_misses : misses (drop 1 Reconnect.rules) (bytes "127.0.0.1") ≡ true
unfolding misses are_options strncasecmp to_lower Reconnect.rules
local_misses = refl

abbrev pub polled : Options
polled = record {
  ping_port = pos 7001;
  pong_port = pos 7002;
  num_requests = pos 10;
  poll_flag = true;
  control_flag = false;
}

abbrev pub whole_sleep : ℤ → ℤ
whole_sleep (pos rate) = pos (1000000 / rate)
whole_sleep (negsuc rate) = pos 0

pub program_is_none : is_no_option (bytes "./pairs") ≡ true
unfolding strcasecmp str_eq to_lower
program_is_none = refl

parse_params-command_line_example :
    Params.parse_params whole_sleep initial (
      bytes "./pairs" ∷ command_line (msgs_wish (pos 5) ∷ debug_wish ∷ linger_wish (negsuc 0) ∷ []))
    ≡ parsed (
        grant_all whole_sleep
          (msgs_wish (pos 5) ∷ debug_wish ∷ linger_wish (negsuc 0) ∷ [])
          initial)
parse_params-command_line_example =
    parse_params-command_line whole_sleep initial (bytes "./pairs")
      (msgs_wish (pos 5) ∷ debug_wish ∷ linger_wish (negsuc 0) ∷ []) program_is_none
      ((omega arith, omega arith), (tt, ((omega arith, omega arith), tt)))

parse_args-ends_example :
    parse_args PingPong.rules PingPong.defaults (bytes "-p" ∷ bytes "-poll" ∷ []) ≢ running
parse_args-ends_example =
    parse_args-ends PingPong.rules PingPong.defaults (bytes "-p" ∷ bytes "-poll" ∷ [])

parse_params-ends_example :
    Params.parse_params whole_sleep initial (bytes "./pairs" ∷ bytes "-msgs" ∷ bytes "5" ∷ [])
    ≢ running
parse_params-ends_example =
    parse_params-ends whole_sleep initial (bytes "./pairs" ∷ bytes "-msgs" ∷ bytes "5" ∷ [])
