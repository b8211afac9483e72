-- ===== src/Tests/Network/Run.antt =====
-- A run of two peers of `3186/peer.cpp` and the proxy, up to the departure of one of them.
use zmqtests.Base.{◌≡◌, refl, true, false, none, some, [], ◌∷◌}
use zmqtests.Base.Table.{lookup, insert, erase}
use zmqtests.Base.Text.{bytes, str_eq}
use zmqtests.Zmq.{done}
use zmqtests.Peer.Table.{bytes_key, strings_fit}
use zmqtests.Zmq.Monad.{note_failure}
use zmqtests.Peer.Issue3186.{
  is_on, send_connect_msg, leave_when_due, announce, handle_welcome, handle_connect, force_cleanup,
  handle_disconnect, handle_msg, receive_proxy, receive_data, poll_round, peer_round,
}
use zmqtests.Peer.Issue3186.Run.{heard}
use zmqtests.Peer.Network.{
  Network, Reach, join, link, here, one_more, hello, goodbye, sent_on, takes_leave, has_welcome,
}
use zmqtests.Peer.Network.Meeting.{Reach-meets}
use zmqtests.Peer.Network.Agreement.{Reach-discovers, Reach-forgets, Reach-true}
use zmqtests.Tests.Network.{
  Side, same_side, side_key, left_peer, right_peer, peer_of, peers_fit, peers_differ, peers_apart,
  proxy_at, from_proxy, script, polls, item, reading, finding, clock, reply_of, env_of,
  env_of-IsSteady, lingering, at_start, at_start-IsStart, joins, links, rounds, round_to, RunTo,
  StepTo, left, right,
}
use zmqtests.Tests.Network.Worlds.{
  left_0, right_0, left_1, left_1-runs, right_1, right_1-runs, left_2, left_2-runs, right_2,
  right_2-runs, left_3, left_3-runs, left_4, left_4-runs, left_5, left_5-runs, left_6, left_6-runs,
  left_7, left_7-runs, right_3, right_3-runs, right_4, right_4-runs, right_5, right_5-runs, right_6,
  right_6-runs, right_7, right_7-runs, left_8, left_8-runs, left_9, left_9-runs, left_10,
  left_10-runs, right_8, right_8-runs, right_9, right_9-runs,
}

abbrev network_1 : Network Side
network_1 = joins left at_start

step_1 : StepTo at_start network_1
unfolding same_side
step_1 = join left at_start refl

run_1 : RunTo network_1
run_1 = one_more here step_1

abbrev network_2 : Network Side
network_2 = rounds left left_1 false (from_proxy ∷ []) (hello left_peer ∷ []) [] network_1

step_2 : StepTo network_1 network_2
unfolding same_side has_welcome heard sent_on polls script item reading reply_of
step_2 =
    round_to left (from_proxy ∷ []) (hello left_peer ∷ []) [] network_1 left_0 (done false) left_1
      refl left_1-runs refl refl refl refl

run_2 : RunTo network_2
run_2 = one_more run_1 step_2

abbrev network_3 : Network Side
network_3 = links left network_2

step_3 : StepTo network_2 network_3
unfolding same_side has_welcome
step_3 = link left network_2 refl

run_3 : RunTo network_3
run_3 = one_more run_2 step_3

abbrev network_4 : Network Side
network_4 = joins right network_3

step_4 : StepTo network_3 network_4
unfolding same_side
step_4 = join right network_3 refl

run_4 : RunTo network_4
run_4 = one_more run_3 step_4

abbrev network_5 : Network Side
network_5 = rounds right right_1 false (from_proxy ∷ []) (hello right_peer ∷ []) [] network_4

step_5 : StepTo network_4 network_5
unfolding same_side has_welcome heard sent_on polls script item reading reply_of
step_5 =
    round_to right (from_proxy ∷ []) (hello right_peer ∷ []) [] network_4 right_0 (done false)
      right_1 refl right_1-runs refl refl refl refl

run_5 : RunTo network_5
run_5 = one_more run_4 step_5

abbrev network_6 : Network Side
network_6 = links right network_5

step_6 : StepTo network_5 network_6
unfolding same_side has_welcome
step_6 = link right network_5 refl

run_6 : RunTo network_6
run_6 = one_more run_5 step_6

abbrev network_7 : Network Side
network_7 = rounds left left_2 false [] (hello left_peer ∷ []) [] network_6

step_7 : StepTo network_6 network_7
unfolding same_side has_welcome heard sent_on polls script item reading reply_of
step_7 =
    round_to left [] (hello left_peer ∷ []) [] network_6 left_1 (done false) left_2 refl left_2-runs
      refl refl refl refl

run_7 : RunTo network_7
run_7 = one_more run_6 step_7

abbrev network_8 : Network Side
network_8 =
    rounds right right_2 false (hello left_peer ∷ []) (hello right_peer ∷ hello right_peer ∷ []) []
      network_7

step_8 : StepTo network_7 network_8
unfolding same_side has_welcome heard sent_on polls script item reading reply_of
step_8 =
    round_to right (hello left_peer ∷ []) (hello right_peer ∷ hello right_peer ∷ []) [] network_7
      right_1 (done false) right_2 refl right_2-runs refl refl refl refl

run_8 : RunTo network_8
run_8 = one_more run_7 step_8

abbrev network_9 : Network Side
network_9 =
    rounds left left_3 false (hello left_peer ∷ []) (hello left_peer ∷ [])
      (hello right_peer ∷ hello right_peer ∷ []) network_8

step_9 : StepTo network_8 network_9
unfolding same_side has_welcome heard sent_on polls script item reading reply_of
step_9 =
    round_to left (hello left_peer ∷ []) (hello left_peer ∷ [])
      (hello right_peer ∷ hello right_peer ∷ []) network_8 left_2 (done false) left_3 refl
      left_3-runs refl refl refl refl

run_9 : RunTo network_9
run_9 = one_more run_8 step_9

abbrev network_10 : Network Side
network_10 =
    rounds left left_4 false (hello right_peer ∷ []) (hello left_peer ∷ [])
      (hello right_peer ∷ hello left_peer ∷ []) network_9

step_10 : StepTo network_9 network_10
unfolding same_side has_welcome heard sent_on polls script item reading reply_of
step_10 =
    round_to left (hello right_peer ∷ []) (hello left_peer ∷ [])
      (hello right_peer ∷ hello left_peer ∷ []) network_9 left_3 (done false) left_4 refl
      left_4-runs refl refl refl refl

run_10 : RunTo network_10
run_10 = one_more run_9 step_10

abbrev network_11 : Network Side
network_11 =
    rounds left left_5 false (hello right_peer ∷ []) [] (hello left_peer ∷ hello left_peer ∷ [])
      network_10

step_11 : StepTo network_10 network_11
unfolding same_side has_welcome heard sent_on polls script item reading reply_of
step_11 =
    round_to left (hello right_peer ∷ []) [] (hello left_peer ∷ hello left_peer ∷ []) network_10
      left_4 (done false) left_5 refl left_5-runs refl refl refl refl

run_11 : RunTo network_11
run_11 = one_more run_10 step_11

abbrev network_12 : Network Side
network_12 = rounds left left_6 false (hello left_peer ∷ []) [] (hello left_peer ∷ []) network_11

step_12 : StepTo network_11 network_12
unfolding same_side has_welcome heard sent_on polls script item reading reply_of
step_12 =
    round_to left (hello left_peer ∷ []) [] (hello left_peer ∷ []) network_11 left_5 (done false)
      left_6 refl left_6-runs refl refl refl refl

run_12 : RunTo network_12
run_12 = one_more run_11 step_12

abbrev network_13 : Network Side
network_13 = rounds left left_7 false (hello left_peer ∷ []) [] [] network_12

step_13 : StepTo network_12 network_13
unfolding same_side has_welcome heard sent_on polls script item reading reply_of
step_13 =
    round_to left (hello left_peer ∷ []) [] [] network_12 left_6 (done false) left_7 refl
      left_7-runs refl refl refl refl

run_13 : RunTo network_13
run_13 = one_more run_12 step_13

abbrev network_14 : Network Side
network_14 =
    rounds right right_3 false (hello right_peer ∷ []) (hello right_peer ∷ [])
      (hello right_peer ∷ hello left_peer ∷ hello left_peer ∷ []) network_13

step_14 : StepTo network_13 network_14
unfolding same_side has_welcome heard sent_on polls script item reading reply_of
step_14 =
    round_to right (hello right_peer ∷ []) (hello right_peer ∷ [])
      (hello right_peer ∷ hello left_peer ∷ hello left_peer ∷ []) network_13 right_2 (done false)
      right_3 refl right_3-runs refl refl refl refl

run_14 : RunTo network_14
run_14 = one_more run_13 step_14

abbrev network_15 : Network Side
network_15 =
    rounds right right_4 false (hello right_peer ∷ []) []
      (hello left_peer ∷ hello left_peer ∷ hello right_peer ∷ []) network_14

step_15 : StepTo network_14 network_15
unfolding same_side has_welcome heard sent_on polls script item reading reply_of
step_15 =
    round_to right (hello right_peer ∷ []) []
      (hello left_peer ∷ hello left_peer ∷ hello right_peer ∷ []) network_14 right_3 (done false)
      right_4 refl right_4-runs refl refl refl refl

run_15 : RunTo network_15
run_15 = one_more run_14 step_15

abbrev network_16 : Network Side
network_16 =
    rounds right right_5 false (hello left_peer ∷ []) [] (hello left_peer ∷ hello right_peer ∷ [])
      network_15

step_16 : StepTo network_15 network_16
unfolding same_side has_welcome heard sent_on polls script item reading reply_of
step_16 =
    round_to right (hello left_peer ∷ []) [] (hello left_peer ∷ hello right_peer ∷ []) network_15
      right_4 (done false) right_5 refl right_5-runs refl refl refl refl

run_16 : RunTo network_16
run_16 = one_more run_15 step_16

abbrev network_17 : Network Side
network_17 = rounds right right_6 false (hello left_peer ∷ []) [] (hello right_peer ∷ []) network_16

step_17 : StepTo network_16 network_17
unfolding same_side has_welcome heard sent_on polls script item reading reply_of
step_17 =
    round_to right (hello left_peer ∷ []) [] (hello right_peer ∷ []) network_16 right_5 (done false)
      right_6 refl right_6-runs refl refl refl refl

run_17 : RunTo network_17
run_17 = one_more run_16 step_17

abbrev network_18 : Network Side
network_18 = rounds right right_7 false (hello right_peer ∷ []) [] [] network_17

step_18 : StepTo network_17 network_18
unfolding same_side has_welcome heard sent_on polls script item reading reply_of
step_18 =
    round_to right (hello right_peer ∷ []) [] [] network_17 right_6 (done false) right_7 refl
      right_7-runs refl refl refl refl

run_18 : RunTo network_18
run_18 = one_more run_17 step_18

abbrev network_19 : Network Side
network_19 = rounds left left_8 false (hello right_peer ∷ []) [] [] network_18

step_19 : StepTo network_18 network_19
unfolding same_side has_welcome heard sent_on polls script item reading reply_of
step_19 =
    round_to left (hello right_peer ∷ []) [] [] network_18 left_7 (done false) left_8 refl
      left_8-runs refl refl refl refl

run_19 : RunTo network_19
run_19 = one_more run_18 step_19

abbrev network_20 : Network Side
network_20 = rounds left left_9 false [] (goodbye left_peer ∷ []) [] network_19

step_20 : StepTo network_19 network_20
unfolding same_side has_welcome heard sent_on polls script item reading reply_of
step_20 =
    round_to left [] (goodbye left_peer ∷ []) [] network_19 left_8 (done false) left_9 refl
      left_9-runs refl refl refl refl

run_20 : RunTo network_20
run_20 = one_more run_19 step_20

abbrev network_21 : Network Side
network_21 =
    rounds left left_10 true (goodbye left_peer ∷ []) (goodbye left_peer ∷ []) [] network_20

step_21 : StepTo network_20 network_21
unfolding same_side has_welcome heard sent_on polls script item reading reply_of
step_21 =
    round_to left (goodbye left_peer ∷ []) (goodbye left_peer ∷ []) [] network_20 left_9 (done true)
      left_10 refl left_10-runs refl refl refl refl

run_21 : RunTo network_21
run_21 = one_more run_20 step_21

abbrev network_22 : Network Side
network_22 =
    rounds right right_8 false (goodbye left_peer ∷ []) [] (goodbye left_peer ∷ []) network_21

step_22 : StepTo network_21 network_22
unfolding same_side has_welcome heard sent_on polls script item reading reply_of
step_22 =
    round_to right (goodbye left_peer ∷ []) [] (goodbye left_peer ∷ []) network_21 right_7
      (done false) right_8 refl right_8-runs refl refl refl refl

run_22 : RunTo network_22
run_22 = one_more run_21 step_22

abbrev network_23 : Network Side
network_23 = rounds right right_9 false (goodbye left_peer ∷ []) [] [] network_22

step_23 : StepTo network_22 network_23
unfolding same_side has_welcome heard sent_on polls script item reading reply_of
step_23 =
    round_to right (goodbye left_peer ∷ []) [] [] network_22 right_8 (done false) right_9 refl
      right_9-runs refl refl refl refl

run_23 : RunTo network_23
run_23 = one_more run_22 step_23

-- The run behind the first round in which the left peer's connection stands.
onward_7 : Reach peer_of env_of lingering proxy_at (bytes "p") network_7 network_19
onward_7 =
    one_more
      (one_more
        (one_more
          (one_more
            (one_more
              (one_more
                (one_more
                  (one_more
                    (one_more (one_more (one_more (one_more here step_8) step_9) step_10) step_11)
                    step_12)
                  step_13)
                step_14)
              step_15)
            step_16)
          step_17)
        step_18)
      step_19

Reach-discovers_example :
    (lookup right_peer.the_uuid (network_19.worlds left).vars ≡ some right_peer.pub_endpoint)
    × (lookup left_peer.the_uuid (network_19.worlds right).vars ≡ some left_peer.pub_endpoint)
unfolding same_side lookup str_eq takes_leave sent_on
Reach-discovers_example =
    Reach-discovers peer_of peers_fit peers_differ peers_apart env_of lingering proxy_at (bytes "p")
      at_start network_19 at_start-IsStart run_19 left right refl refl refl refl refl refl

Reach-forgets_example : lookup left_peer.the_uuid (network_23.worlds right).vars ≡ none
unfolding same_side lookup str_eq takes_leave sent_on
Reach-forgets_example =
    Reach-forgets peer_of peers_fit peers_differ peers_apart env_of env_of-IsSteady lingering
      proxy_at (bytes "p") at_start network_23 at_start-IsStart run_23 right left refl refl refl

Reach-true_example :
    (j : Side) × (right_peer.the_uuid ≡ (peer_of j).the_uuid)
    × (right_peer.pub_endpoint ≡ (peer_of j).pub_endpoint)
unfolding same_side lookup str_eq takes_leave sent_on
Reach-true_example =
    Reach-true peer_of peers_fit peers_differ peers_apart env_of lingering proxy_at (bytes "p")
      at_start network_19 at_start-IsStart run_19 left right_peer.the_uuid right_peer.pub_endpoint
      refl

Reach-meets_example :
    lookup left_peer.the_uuid (network_19.worlds left).vars ≡ some left_peer.pub_endpoint
unfolding same_side has_welcome heard sent_on takes_leave peer_round leave_when_due poll_round
    announce receive_proxy receive_data handle_msg handle_welcome handle_connect handle_disconnect
    force_cleanup send_connect_msg strings_fit is_on note_failure lookup insert erase str_eq polls
    script item reading finding clock reply_of
Reach-meets_example =
    Reach-meets peer_of peers_fit peers_differ peers_apart env_of lingering proxy_at (bytes "p")
      at_start network_6 network_19 at_start-IsStart run_6 left [] (hello left_peer ∷ []) [] refl
      refl refl refl refl onward_7 refl refl
