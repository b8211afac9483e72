-- ===== src/Params/Issue3186/RoundTrip.antt =====
-- Command lines for `3186/params.c` with the options in full.
use zmqtests.Base.{
  inl, inr, Bool-cases, ◌&&◌, arith, ℕ, ◌≡◌, refl, ap, ◌∙◌, Bool, true, List, [], ◌∷◌, ◌++◌, suc,
  take, drop, if◌then◌else◌,
}
use zmqtests.Base.Int.{ℤ, pos, IsInt, is_int}
use zmqtests.Base.Text.{Bytes, bytes}
use zmqtests.Clib.Compare.{strncasecmp, to_lower}
use zmqtests.Clib.Decimal.{decimal}
use zmqtests.Params.{flag, number, is_match, parsed, undefined, try, try_all}
use zmqtests.Params.Line.{
  Item, bare, valued, Reads, line, effect, parse_args-line, parse_args-undefined, switch,
  switch-AllTried, effect-switch, AllTried, none_tried, tried-AllRead, parse_args-tried,
}
use zmqtests.Params.Names.{misses, are_options, flag-Reads, decimal-AllTried}
use zmqtests.Peer.Issue3186.Main.{Options}
use zmqtests.Params.Issue3186.{
  set_seconds, set_sleep_at_exit, set_port, set_disable_reconnect, set_fix1256,
  set_send_after_disconnect, set_immediate_exit, set_duplicate_disconnect, set_linger,
  set_poll_after_disconnect, set_long_lived, set_early_linger, set_socket_monitor, defaults, rules,
  parse_params,
}

-- What a command line asks for.
pub record Wish : Type 0 where
  pub seconds : ℤ
  pub sleep_at_exit : ℤ
  pub port : ℤ
  pub disable_reconnect : Bool
  pub fix1256 : Bool
  pub send_after_disconnect : Bool
  pub immediate_exit : Bool
  pub duplicate_disconnect : Bool
  pub linger : ℤ
  pub poll_after_disconnect : Bool
  pub long_lived : Bool
  pub early_linger : Bool
  pub socket_monitor : Bool

abbrev pub one_or_zero : Bool → ℤ
one_or_zero b = if b then pos 1 else pos 0

abbrev pub options_of : Wish → Options
options_of w = record {
  seconds = w.seconds;
  sleep_at_exit = w.sleep_at_exit;
  port = w.port;
  disable_reconnect = one_or_zero w.disable_reconnect;
  linger = w.linger;
  long_lived = one_or_zero w.long_lived;
  early_linger = one_or_zero w.early_linger;
  socket_monitor = one_or_zero w.socket_monitor;
  loop = record {
    fix1256 = one_or_zero w.fix1256;
    send_after_disconnect = one_or_zero w.send_after_disconnect;
    immediate_exit = one_or_zero w.immediate_exit;
    duplicate_disconnect = one_or_zero w.duplicate_disconnect;
    poll_after_disconnect = one_or_zero w.poll_after_disconnect;
  };
}

-- The options in full, in the order of the tests.
abbrev pub wish_items : Wish → List (Item Options)
wish_items w =
    valued (bytes "-seconds") (decimal w.seconds) (set_seconds w.seconds)
    ∷ (valued (bytes "-sleep-at-exit") (decimal w.sleep_at_exit) (set_sleep_at_exit w.sleep_at_exit)
        ∷ (valued (bytes "-port") (decimal w.port) (set_port w.port)
            ∷ (switch w.disable_reconnect (bytes "-disable-reconnect")
                (set_disable_reconnect (pos 1))
                (switch w.fix1256 (bytes "-fix1256") (set_fix1256 (pos 1)) (
                  switch w.send_after_disconnect (bytes "-send-after-disconnect")
                    (set_send_after_disconnect (pos 1))
                    (switch w.immediate_exit (bytes "-immediate-exit") (set_immediate_exit (pos 1))
                      (switch w.duplicate_disconnect (bytes "-duplicate-disconnect")
                        (set_duplicate_disconnect (pos 1))
                        (valued (bytes "-linger") (decimal w.linger) (set_linger w.linger)
                          ∷ (switch w.poll_after_disconnect (bytes "-poll-after-disconnect")
                              (set_poll_after_disconnect (pos 1))
                              (switch w.long_lived (bytes "-long-lived") (set_long_lived (pos 1)) (
                                switch w.early_linger (bytes "-early-linger")
                                  (set_early_linger (pos 1))
                                  (switch w.socket_monitor (bytes "-monitor-sockets")
                                    (set_socket_monitor (pos 1)) ([])))))))))))))

-- Each option is read by its own test and by no other.
number_rule-AllTried :
    (k : ℕ) (name : Bytes) (set : ℤ → Options → Options) (z : ℤ) (ok : Bool)
    (items : List (Item Options))
    → misses (take k rules) name ≡ true
    → is_match name name ≡ true
    → are_options (drop (suc k) rules) ≡ true
    → AllTried (take k rules ++ number name set ∷ drop (suc k) rules) ok items
    → AllTried
        (take k rules ++ number name set ∷ drop (suc k) rules)
        (is_int z && ok)
        (valued name (decimal z) (set z) ∷ items)
number_rule-AllTried k name set z ok items =
    decimal-AllTried (take k rules) (drop (suc k) rules) name set z ok items

flag_rule-Reads :
    (k : ℕ) (name : Bytes) (set : Options → Options)
    → misses (take k rules) name ≡ true
    → is_match name name ≡ true
    → misses (drop (suc k) rules) name ≡ true
    → Reads (take k rules ++ flag name set ∷ drop (suc k) rules) (bare name set)
flag_rule-Reads k name set = flag-Reads (take k rules) (drop (suc k) rules) name set

-- All numbers of the wish are of type `int`.
abbrev all_int : Wish → Bool
all_int w =
    is_int w.seconds && (is_int w.sleep_at_exit && (is_int w.port && (is_int w.linger && true)))

wish_items-AllTried : (w : Wish) → AllTried rules (all_int w) (wish_items w)
unfolding rules misses are_options to_lower strncasecmp
wish_items-AllTried w =
    let r12 =
      switch-AllTried rules _ w.socket_monitor (bytes "-monitor-sockets")
        (set_socket_monitor (pos 1)) []
        (flag_rule-Reads 12 (bytes "-monitor-sockets") (set_socket_monitor (pos 1)) refl refl refl)
        none_tried in
    let r11 =
      switch-AllTried rules _ w.early_linger (bytes "-early-linger") (set_early_linger (pos 1)) _
        (flag_rule-Reads 11 (bytes "-early-linger") (set_early_linger (pos 1)) refl refl refl)
        r12 in
    let r10 =
      switch-AllTried rules _ w.long_lived (bytes "-long-lived") (set_long_lived (pos 1)) _
        (flag_rule-Reads 10 (bytes "-long-lived") (set_long_lived (pos 1)) refl refl refl) r11 in
    let r9 =
      switch-AllTried rules _ w.poll_after_disconnect (bytes "-poll-after-disconnect")
        (set_poll_after_disconnect (pos 1)) _
        (flag_rule-Reads 9 (bytes "-poll-after-disconnect") (set_poll_after_disconnect (pos 1)) refl
          refl refl)
        r10 in
    let r8 = number_rule-AllTried 8 (bytes "-linger") set_linger w.linger _ _ refl refl refl r9 in
    let r7 =
      switch-AllTried rules _ w.duplicate_disconnect (bytes "-duplicate-disconnect")
        (set_duplicate_disconnect (pos 1)) _
        (flag_rule-Reads 7 (bytes "-duplicate-disconnect") (set_duplicate_disconnect (pos 1)) refl
          refl refl)
        r8 in
    let r6 =
      switch-AllTried rules _ w.immediate_exit (bytes "-immediate-exit")
        (set_immediate_exit (pos 1)) _
        (flag_rule-Reads 6 (bytes "-immediate-exit") (set_immediate_exit (pos 1)) refl refl refl)
        r7 in
    let r5 =
      switch-AllTried rules _ w.send_after_disconnect (bytes "-send-after-disconnect")
        (set_send_after_disconnect (pos 1)) _
        (flag_rule-Reads 5 (bytes "-send-after-disconnect") (set_send_after_disconnect (pos 1)) refl
          refl refl)
        r6 in
    let r4 =
      switch-AllTried rules _ w.fix1256 (bytes "-fix1256") (set_fix1256 (pos 1)) _
        (flag_rule-Reads 4 (bytes "-fix1256") (set_fix1256 (pos 1)) refl refl refl) r5 in
    let r3 =
      switch-AllTried rules _ w.disable_reconnect (bytes "-disable-reconnect")
        (set_disable_reconnect (pos 1)) _
        (flag_rule-Reads 3 (bytes "-disable-reconnect") (set_disable_reconnect (pos 1)) refl refl
          refl)
        r4 in
    let r2 = number_rule-AllTried 2 (bytes "-port") set_port w.port _ _ refl refl refl r3 in
    let r1 =
      number_rule-AllTried 1 (bytes "-sleep-at-exit") set_sleep_at_exit w.sleep_at_exit _ _ refl
        refl refl r2 in
    let r0 =
      number_rule-AllTried 0 (bytes "-seconds") set_seconds w.seconds _ _ refl refl refl r1 in
    r0

effect-wish_items : (w : Wish) → effect (wish_items w) defaults ≡ options_of w
effect-wish_items w =
    effect-switch w.disable_reconnect (bytes "-disable-reconnect") set_disable_reconnect
      (λ o. o.disable_reconnect) _ _ (λ p. refl)
    ∙ effect-switch w.fix1256 (bytes "-fix1256") set_fix1256 (λ o. o.loop.fix1256) _ _ (λ p. refl)
    ∙ effect-switch w.send_after_disconnect (bytes "-send-after-disconnect")
        set_send_after_disconnect (λ o. o.loop.send_after_disconnect) _ _ (λ p. refl)
    ∙ effect-switch w.immediate_exit (bytes "-immediate-exit") set_immediate_exit
        (λ o. o.loop.immediate_exit) _ _ (λ p. refl)
    ∙ effect-switch w.duplicate_disconnect (bytes "-duplicate-disconnect") set_duplicate_disconnect
        (λ o. o.loop.duplicate_disconnect) _ _ (λ p. refl)
    ∙ effect-switch w.poll_after_disconnect (bytes "-poll-after-disconnect")
        set_poll_after_disconnect (λ o. o.loop.poll_after_disconnect) _ _ (λ p. refl)
    ∙ effect-switch w.long_lived (bytes "-long-lived") set_long_lived (λ o. o.long_lived) _ _
        (λ p. refl)
    ∙ effect-switch w.early_linger (bytes "-early-linger") set_early_linger (λ o. o.early_linger) _
        _ (λ p. refl)
    ∙ effect-switch w.socket_monitor (bytes "-monitor-sockets") set_socket_monitor
        (λ o. o.socket_monitor) _ _ (λ p. refl)

-- A command line that gives the options in full, the numbers as decimals and the switches that are
-- wished for, sets all thirteen variables to what is wished, for every choice of the switches and
-- of numbers of type `int`.
pub parse_params-wish_items :
    (w : Wish)
    → IsInt w.seconds
    → IsInt w.sleep_at_exit
    → IsInt w.port
    → IsInt w.linger
    → parse_params (line (wish_items w)) ≡ parsed (options_of w)
unfolding parse_params
parse_params-wish_items w seconds sleep_at_exit port linger =
    parse_args-line rules defaults (wish_items w) (
      tried-AllRead rules (wish_items w) (all_int w) (wish_items-AllTried w)
        (ground (arith, seconds, sleep_at_exit, port, linger)))
    ∙ ap parsed (effect-wish_items w)

-- The options with a value.
pub data IsValued : Bytes → Type 0 where
  seconds_option : IsValued (bytes "-seconds")
  sleep_option : IsValued (bytes "-sleep-at-exit")
  port_option : IsValued (bytes "-port")
  linger_option : IsValued (bytes "-linger")

reads_past_end :
    (name : Bytes) → IsValued name → (o : Options) → try_all rules o (name ∷ []) ≡ undefined
unfolding rules try_all try strncasecmp to_lower
reads_past_end name seconds_option o = refl
reads_past_end name sleep_option o = refl
reads_past_end name port_option o = refl
reads_past_end name linger_option o = refl

-- A command line that ends in an option with a value, whose value is missing, makes `parseParams`
-- read through the NULL at the end of `argv`, whatever options in full stand before it, if it does
-- not lose its meaning before, at a number outside `int`.
pub parse_params-missing_value :
    (w : Wish) (name : Bytes)
    → IsValued name
    → parse_params (line (wish_items w) ++ name ∷ []) ≡ undefined
unfolding parse_params
parse_params-missing_value w name v = elim (Bool-cases (all_int w)) [
  | inl int ↦
      parse_args-undefined rules defaults (wish_items w) name
        (tried-AllRead rules (wish_items w) (all_int w) (wish_items-AllTried w) int)
        (reads_past_end name v)
  | inr large ↦
      parse_args-tried rules defaults (wish_items w) (all_int w) (name ∷ []) (wish_items-AllTried w)
        large
]
