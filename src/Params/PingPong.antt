-- ===== src/Params/PingPong.antt =====
-- `pingpong/params.c`.
use zmqtests.Base.{
  ◌≡◌, refl, ◌∙◌, Bool, true, false, List, [], ◌∷◌, ◌++◌, take, drop, if◌then◌else◌, arith,
}
use zmqtests.Base.Int.{ℤ, pos, IsInt}
use zmqtests.Base.Text.{Bytes, bytes}
use zmqtests.Clib.Compare.{strncasecmp, to_lower}
use zmqtests.Clib.Decimal.{decimal}
use zmqtests.Params.{Rule, flag, number, Parsed, parsed, parse_args}
use zmqtests.Params.Line.{Item, bare, valued, line, AllRead, and_next, none_left, parse_args-line}
use zmqtests.Params.Names.{misses, are_options, flag-Reads, decimal-Reads}

pub record Options : Type 0 where
  pub ping_port : ℤ
  pub pong_port : ℤ
  pub num_requests : ℤ
  pub poll_flag : Bool
  pub control_flag : Bool

abbrev pub defaults : Options
defaults = record {
  ping_port = pos 0;
  pong_port = pos 0;
  num_requests = pos 100000;
  poll_flag = false;
  control_flag = false;
}

unfoldable pub rules : List (Rule Options)
rules =
    number (bytes "-ping") (λ v o. record o { ping_port = v })
    ∷ number (bytes "-pong") (λ v o. record o { pong_port = v })
    ∷ number (bytes "-n") (λ v o. record o { num_requests = v })
    ∷ flag (bytes "-poll") (λ o. record o { poll_flag = true })
    ∷ flag (bytes "-control") (λ o. record o { control_flag = true })
    ∷ []

unfoldable pub parse_params : List Bytes → Parsed Options
unfolding rules
parse_params args = parse_args rules defaults args

-- The options in full.
abbrev pub poll_item : Item Options
poll_item = bare (bytes "-poll") (λ o. record o { poll_flag = true })

abbrev pub control_item : Item Options
control_item = bare (bytes "-control") (λ o. record o { control_flag = true })

abbrev pub ping_items : Options → List (Item Options)
ping_items q =
    valued (bytes "-ping") (decimal q.ping_port) (λ o. record o { ping_port = q.ping_port })
    ∷ valued (bytes "-pong") (decimal q.pong_port) (λ o. record o { pong_port = q.pong_port })
    ∷ valued (bytes "-n") (decimal q.num_requests) (λ o. record o { num_requests = q.num_requests })
    ∷ ((if q.poll_flag then poll_item ∷ [] else [])
        ++ (if q.control_flag then control_item ∷ [] else []))

switches-AllRead :
    (p c : Bool)
    → AllRead rules ((if p then poll_item ∷ [] else []) ++ (if c then control_item ∷ [] else []))
unfolding rules misses to_lower strncasecmp
switches-AllRead p c =
    let poll =
      flag-Reads (take 3 rules) (drop 4 rules) (bytes "-poll") (λ o. record o { poll_flag = true })
        refl refl refl in
    let control =
      flag-Reads (take 4 rules) [] (bytes "-control") (λ o. record o { control_flag = true }) refl
        refl refl in
    elim p
      as (λ b.
        AllRead rules
          ((if b then poll_item ∷ [] else []) ++ (if c then control_item ∷ [] else []))) [
            | true ↦
                elim c as (λ b. AllRead rules (poll_item ∷ (if b then control_item ∷ [] else []))) [
                  | true ↦ and_next poll (and_next control none_left)
                  | false ↦ and_next poll none_left
                ]
            | false ↦ elim c as (λ b. AllRead rules (if b then control_item ∷ [] else [])) [
              | true ↦ and_next control none_left
              | false ↦ none_left
            ]
          ]

-- A command line that gives the options in full sets the five variables to what it says, for every
-- choice of ports and number of requests of type `int`, and of switches.
pub parse_params-ping_items :
    (q : Options)
    → IsInt q.ping_port
    → IsInt q.pong_port
    → IsInt q.num_requests
    → parse_params (line (ping_items q)) ≡ parsed q
unfolding parse_params misses are_options to_lower strncasecmp
parse_params-ping_items q ping pong requests =
    parse_args-line rules defaults (ping_items q) (
      and_next
        (decimal-Reads [] (drop 1 rules) (bytes "-ping") (λ v o. record o { ping_port = v })
          q.ping_port refl refl refl (ground (arith, ping)))
        (and_next
          (decimal-Reads (take 1 rules) (drop 2 rules) (bytes "-pong")
            (λ v o. record o { pong_port = v }) q.pong_port refl refl refl (ground (arith, pong)))
          (and_next
            (decimal-Reads (take 2 rules) (drop 3 rules) (bytes "-n")
              (λ v o. record o { num_requests = v }) q.num_requests refl refl refl
              (ground (arith, requests)))
            (switches-AllRead q.poll_flag q.control_flag))))
    ∙ ground arith
