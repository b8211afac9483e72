-- ===== src/Params/Reconnect.antt =====
-- `reconnect/params.c` and `connect/params.c`, which have the same options.
use zmqtests.Base.{
  inl, inr, Bool-cases, ◌&&◌, if◌then◌else◌, ◌≡◌, refl, true, List, [], ◌∷◌, Option, none, some,
  take, drop,
}
use zmqtests.Base.Int.{is_int, ℤ, pos}
use zmqtests.Base.Text.{Bytes, bytes}
use zmqtests.Clib.Compare.{strncasecmp, to_lower}
use zmqtests.Clib.Decimal.{decimal}
use zmqtests.Params.{Rule, number, text, Parsed, ◌>>=◌, parsed, undefined, parse_args}
use zmqtests.Params.Line.{
  Item, valued, line, AllTried, none_tried, then_reads, tried-AllRead, parse_args-line,
  parse_args-tried,
}
use zmqtests.Params.Names.{misses, are_options, decimal-AllTried, text-Reads}

-- The global variables; `tcpAddr` is `none` where it is NULL.
pub record Options : Type 0 where
  pub port : ℤ
  pub stop_reconnect_on_error : ℤ
  pub tcp_addr : Option Bytes
  pub interval : ℤ

abbrev pub defaults : Options
defaults = record {
  port = pos 0;
  stop_reconnect_on_error = pos 0;
  tcp_addr = none;
  interval = pos 1000;
}

unfoldable pub rules : List (Rule Options)
rules =
    text (bytes "-addr") (λ v o. record o { tcp_addr = some v })
    ∷ number (bytes "-port") (λ v o. record o { port = v })
    ∷ number (bytes "-interval") (λ v o. record o { interval = v })
    ∷ number (bytes "-stop-reconnect-on") (λ v o. record o { stop_reconnect_on_error = v })
    ∷ []

-- Behind the loop.
abbrev pub with_addr : Options → Options
with_addr o = elim o.tcp_addr [
  | none ↦ record o { tcp_addr = some (bytes "127.0.0.1") }
  | some a ↦ o
]

unfoldable pub parse_params : List Bytes → Parsed Options
unfolding rules
parse_params args = do o ← parse_args rules defaults args; parsed (with_addr o)

-- The options in full, with an address.
abbrev pub address_items : Bytes → ℤ → ℤ → ℤ → List (Item Options)
address_items addr port interval stop =
    valued (bytes "-addr") addr (λ o. record o { tcp_addr = some addr })
    ∷ valued (bytes "-port") (decimal port) (λ o. record o { port = port })
    ∷ valued (bytes "-interval") (decimal interval) (λ o. record o { interval = interval })
    ∷ valued (bytes "-stop-reconnect-on") (decimal stop)
        (λ o. record o { stop_reconnect_on_error = stop })
    ∷ []

address_items-AllTried :
    (addr : Bytes) (port interval stop : ℤ)
    → misses (drop 1 rules) addr ≡ true
    → AllTried rules
        (is_int port && (is_int interval && (is_int stop && true)))
        (address_items addr port interval stop)
unfolding rules misses are_options to_lower strncasecmp
address_items-AllTried addr port interval stop clear =
    then_reads
      (text-Reads [] (drop 1 rules) (bytes "-addr") addr (λ v o. record o { tcp_addr = some v })
        refl refl clear)
      (decimal-AllTried (take 1 rules) (drop 2 rules) (bytes "-port") (λ v o. record o { port = v })
        port _ _ refl refl refl
        (decimal-AllTried (take 2 rules) (drop 3 rules) (bytes "-interval")
          (λ v o. record o { interval = v }) interval _ _ refl refl refl
          (decimal-AllTried (take 3 rules) [] (bytes "-stop-reconnect-on")
            (λ v o. record o { stop_reconnect_on_error = v }) stop _ _ refl refl refl none_tried)))

-- A command line that gives the four options in full sets them all to what it says, if the numbers
-- are of type `int`, and has no meaning if not. The condition is that the address is not itself taken
-- for one of the other three options.
pub parse_params-address_items :
    (addr : Bytes) (port interval stop : ℤ)
    → misses (drop 1 rules) addr ≡ true
    → parse_params (line (address_items addr port interval stop)) ≡ (
        if is_int port && (is_int interval && (is_int stop && true))
        then parsed (record {
          port = port;
          stop_reconnect_on_error = stop;
          tcp_addr = some addr;
          interval = interval;
        })
        else undefined)
unfolding parse_params
parse_params-address_items addr port interval stop clear =
    let items = address_items addr port interval stop in
    let ok = is_int port && (is_int interval && (is_int stop && true)) in
    let tried = address_items-AllTried addr port interval stop clear in
    elim (Bool-cases ok) [
      | inl int ↦
          rw int (
            rw (parse_args-line rules defaults items (tried-AllRead rules items ok tried int)) refl)
      | inr large ↦ rw large (rw (parse_args-tried rules defaults items ok [] tried large) refl)
    ]

-- `parseParams` of `connect/params.c`.
abbrev pub parse_connect_params : List Bytes → Parsed Options
parse_connect_params = parse_params
