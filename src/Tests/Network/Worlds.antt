-- ===== src/Tests/Network/Worlds.antt =====
-- What two peers of `3186/peer.cpp` have done behind each round of a run.
use zmqtests.Base.{◌≡◌, refl, true, false, [], ◌∷◌}
use zmqtests.Base.Table.{lookup, insert, erase}
use zmqtests.Base.Text.{str_eq}
use zmqtests.Zmq.{zmq_send, zmq_connect, zmq_disconnect, zmq_dontwait, raw, time, World, done}
use zmqtests.Zmq.Monad.{note_failure}
use zmqtests.Peer.Table.{bytes_key, strings_fit, Peers}
use zmqtests.Peer.Issue3186.{
  is_on, send_connect_msg, leave_when_due, announce, handle_welcome, handle_connect, force_cleanup,
  handle_disconnect, handle_msg, receive_proxy, receive_data, poll_round, peer_round,
}
use zmqtests.Peer.Network.{hello, goodbye}
use zmqtests.Tests.Network.{
  side_key, left_peer, right_peer, proxy_at, script, polls, item, reading, finding, clock, reply_of,
  env_of, blank, polled, kick, takes, says, entry, left, right,
}

abbrev pub left_0 : World Peers
left_0 = blank

abbrev pub right_0 : World Peers
right_0 = blank

abbrev pub left_1 : World Peers
left_1 = record {
  calls =
      zmq_connect 2 proxy_at ∷ takes ∷ says (hello left_peer) ∷ kick ∷ polled ∷ time ∷ left_0.calls;
  log = [];
  vars = [];
}

pub left_1-runs : peer_round left_peer (env_of left) left_0 ≡ (done false, left_1)
unfolding peer_round leave_when_due poll_round announce receive_proxy receive_data handle_msg
    handle_welcome handle_connect handle_disconnect force_cleanup send_connect_msg strings_fit is_on
    note_failure lookup insert erase str_eq polls script item reading finding clock reply_of
left_1-runs = refl

abbrev pub right_1 : World Peers
right_1 = record {
  calls = zmq_connect 2 proxy_at ∷ takes ∷ says (hello right_peer) ∷ kick ∷ polled ∷ right_0.calls;
  log = [];
  vars = [];
}

pub right_1-runs : peer_round right_peer (env_of right) right_0 ≡ (done false, right_1)
unfolding peer_round leave_when_due poll_round announce receive_proxy receive_data handle_msg
    handle_welcome handle_connect handle_disconnect force_cleanup send_connect_msg strings_fit is_on
    note_failure lookup insert erase str_eq polls script item reading finding clock reply_of
right_1-runs = refl

abbrev pub left_2 : World Peers
left_2 = record {
  calls = says (hello left_peer) ∷ kick ∷ polled ∷ time ∷ left_1.calls;
  log = [];
  vars = [];
}

pub left_2-runs : peer_round left_peer (env_of left) left_1 ≡ (done false, left_2)
unfolding peer_round leave_when_due poll_round announce receive_proxy receive_data handle_msg
    handle_welcome handle_connect handle_disconnect force_cleanup send_connect_msg strings_fit is_on
    note_failure lookup insert erase str_eq polls script item reading finding clock reply_of
left_2-runs = refl

abbrev pub right_2 : World Peers
right_2 = record {
  calls =
      says (hello right_peer)
      ∷ zmq_connect 4 left_peer.pub_endpoint
      ∷ takes
      ∷ says (hello right_peer)
      ∷ kick
      ∷ polled
      ∷ right_1.calls;
  log = [];
  vars = entry left_peer ∷ [];
}

pub right_2-runs : peer_round right_peer (env_of right) right_1 ≡ (done false, right_2)
unfolding peer_round leave_when_due poll_round announce receive_proxy receive_data handle_msg
    handle_welcome handle_connect handle_disconnect force_cleanup send_connect_msg strings_fit is_on
    note_failure lookup insert erase str_eq polls script item reading finding clock reply_of
right_2-runs = refl

abbrev pub left_3 : World Peers
left_3 = record {
  calls =
      zmq_connect 4 left_peer.pub_endpoint
      ∷ takes
      ∷ says (hello left_peer)
      ∷ kick
      ∷ polled
      ∷ time
      ∷ left_2.calls;
  log = [];
  vars = entry left_peer ∷ [];
}

pub left_3-runs : peer_round left_peer (env_of left) left_2 ≡ (done false, left_3)
unfolding peer_round leave_when_due poll_round announce receive_proxy receive_data handle_msg
    handle_welcome handle_connect handle_disconnect force_cleanup send_connect_msg strings_fit is_on
    note_failure lookup insert erase str_eq polls script item reading finding clock reply_of
left_3-runs = refl

abbrev pub left_4 : World Peers
left_4 = record {
  calls =
      says (hello left_peer)
      ∷ zmq_connect 4 right_peer.pub_endpoint
      ∷ takes
      ∷ kick
      ∷ polled
      ∷ time
      ∷ left_3.calls;
  log = [];
  vars = entry left_peer ∷ entry right_peer ∷ [];
}

pub left_4-runs : peer_round left_peer (env_of left) left_3 ≡ (done false, left_4)
unfolding peer_round leave_when_due poll_round announce receive_proxy receive_data handle_msg
    handle_welcome handle_connect handle_disconnect force_cleanup send_connect_msg strings_fit is_on
    note_failure lookup insert erase str_eq polls script item reading finding clock reply_of
left_4-runs = refl

abbrev pub left_5 : World Peers
left_5 = record {
  calls = takes ∷ kick ∷ polled ∷ time ∷ left_4.calls;
  log = [];
  vars = entry left_peer ∷ entry right_peer ∷ [];
}

pub left_5-runs : peer_round left_peer (env_of left) left_4 ≡ (done false, left_5)
unfolding peer_round leave_when_due poll_round announce receive_proxy receive_data handle_msg
    handle_welcome handle_connect handle_disconnect force_cleanup send_connect_msg strings_fit is_on
    note_failure lookup insert erase str_eq polls script item reading finding clock reply_of
left_5-runs = refl

abbrev pub left_6 : World Peers
left_6 = record {
  calls = takes ∷ kick ∷ polled ∷ time ∷ left_5.calls;
  log = [];
  vars = entry left_peer ∷ entry right_peer ∷ [];
}

pub left_6-runs : peer_round left_peer (env_of left) left_5 ≡ (done false, left_6)
unfolding peer_round leave_when_due poll_round announce receive_proxy receive_data handle_msg
    handle_welcome handle_connect handle_disconnect force_cleanup send_connect_msg strings_fit is_on
    note_failure lookup insert erase str_eq polls script item reading finding clock reply_of
left_6-runs = refl

abbrev pub left_7 : World Peers
left_7 = record {
  calls = takes ∷ kick ∷ polled ∷ time ∷ left_6.calls;
  log = [];
  vars = entry left_peer ∷ entry right_peer ∷ [];
}

pub left_7-runs : peer_round left_peer (env_of left) left_6 ≡ (done false, left_7)
unfolding peer_round leave_when_due poll_round announce receive_proxy receive_data handle_msg
    handle_welcome handle_connect handle_disconnect force_cleanup send_connect_msg strings_fit is_on
    note_failure lookup insert erase str_eq polls script item reading finding clock reply_of
left_7-runs = refl

abbrev pub right_3 : World Peers
right_3 = record {
  calls =
      zmq_connect 4 right_peer.pub_endpoint
      ∷ takes
      ∷ says (hello right_peer)
      ∷ kick
      ∷ polled
      ∷ right_2.calls;
  log = [];
  vars = entry left_peer ∷ entry right_peer ∷ [];
}

pub right_3-runs : peer_round right_peer (env_of right) right_2 ≡ (done false, right_3)
unfolding peer_round leave_when_due poll_round announce receive_proxy receive_data handle_msg
    handle_welcome handle_connect handle_disconnect force_cleanup send_connect_msg strings_fit is_on
    note_failure lookup insert erase str_eq polls script item reading finding clock reply_of
right_3-runs = refl

abbrev pub right_4 : World Peers
right_4 = record {
  calls = takes ∷ kick ∷ polled ∷ right_3.calls;
  log = [];
  vars = entry left_peer ∷ entry right_peer ∷ [];
}

pub right_4-runs : peer_round right_peer (env_of right) right_3 ≡ (done false, right_4)
unfolding peer_round leave_when_due poll_round announce receive_proxy receive_data handle_msg
    handle_welcome handle_connect handle_disconnect force_cleanup send_connect_msg strings_fit is_on
    note_failure lookup insert erase str_eq polls script item reading finding clock reply_of
right_4-runs = refl

abbrev pub right_5 : World Peers
right_5 = record {
  calls = takes ∷ kick ∷ polled ∷ right_4.calls;
  log = [];
  vars = entry left_peer ∷ entry right_peer ∷ [];
}

pub right_5-runs : peer_round right_peer (env_of right) right_4 ≡ (done false, right_5)
unfolding peer_round leave_when_due poll_round announce receive_proxy receive_data handle_msg
    handle_welcome handle_connect handle_disconnect force_cleanup send_connect_msg strings_fit is_on
    note_failure lookup insert erase str_eq polls script item reading finding clock reply_of
right_5-runs = refl

abbrev pub right_6 : World Peers
right_6 = record {
  calls = takes ∷ kick ∷ polled ∷ right_5.calls;
  log = [];
  vars = entry left_peer ∷ entry right_peer ∷ [];
}

pub right_6-runs : peer_round right_peer (env_of right) right_5 ≡ (done false, right_6)
unfolding peer_round leave_when_due poll_round announce receive_proxy receive_data handle_msg
    handle_welcome handle_connect handle_disconnect force_cleanup send_connect_msg strings_fit is_on
    note_failure lookup insert erase str_eq polls script item reading finding clock reply_of
right_6-runs = refl

abbrev pub right_7 : World Peers
right_7 = record {
  calls = takes ∷ kick ∷ polled ∷ right_6.calls;
  log = [];
  vars = entry left_peer ∷ entry right_peer ∷ [];
}

pub right_7-runs : peer_round right_peer (env_of right) right_6 ≡ (done false, right_7)
unfolding peer_round leave_when_due poll_round announce receive_proxy receive_data handle_msg
    handle_welcome handle_connect handle_disconnect force_cleanup send_connect_msg strings_fit is_on
    note_failure lookup insert erase str_eq polls script item reading finding clock reply_of
right_7-runs = refl

abbrev pub left_8 : World Peers
left_8 = record {
  calls = takes ∷ kick ∷ polled ∷ time ∷ left_7.calls;
  log = [];
  vars = entry left_peer ∷ entry right_peer ∷ [];
}

pub left_8-runs : peer_round left_peer (env_of left) left_7 ≡ (done false, left_8)
unfolding peer_round leave_when_due poll_round announce receive_proxy receive_data handle_msg
    handle_welcome handle_connect handle_disconnect force_cleanup send_connect_msg strings_fit is_on
    note_failure lookup insert erase str_eq polls script item reading finding clock reply_of
left_8-runs = refl

abbrev pub left_9 : World Peers
left_9 = record {
  calls = kick ∷ polled ∷ says (goodbye left_peer) ∷ time ∷ left_8.calls;
  log = [];
  vars = entry left_peer ∷ entry right_peer ∷ [];
}

pub left_9-runs : peer_round left_peer (env_of left) left_8 ≡ (done false, left_9)
unfolding peer_round leave_when_due poll_round announce receive_proxy receive_data handle_msg
    handle_welcome handle_connect handle_disconnect force_cleanup send_connect_msg strings_fit is_on
    note_failure lookup insert erase str_eq polls script item reading finding clock reply_of
left_9-runs = refl

abbrev pub left_10 : World Peers
left_10 = record {
  calls =
      kick
      ∷ zmq_disconnect 4 left_peer.pub_endpoint
      ∷ takes
      ∷ kick
      ∷ polled
      ∷ says (goodbye left_peer)
      ∷ time
      ∷ left_9.calls;
  log = [];
  vars = entry right_peer ∷ [];
}

pub left_10-runs : peer_round left_peer (env_of left) left_9 ≡ (done true, left_10)
unfolding peer_round leave_when_due poll_round announce receive_proxy receive_data handle_msg
    handle_welcome handle_connect handle_disconnect force_cleanup send_connect_msg strings_fit is_on
    note_failure lookup insert erase str_eq polls script item reading finding clock reply_of
left_10-runs = refl

abbrev pub right_8 : World Peers
right_8 = record {
  calls =
      zmq_send 1 (raw []) zmq_dontwait
      ∷ kick
      ∷ zmq_disconnect 4 left_peer.pub_endpoint
      ∷ takes
      ∷ kick
      ∷ polled
      ∷ right_7.calls;
  log = [];
  vars = entry right_peer ∷ [];
}

pub right_8-runs : peer_round right_peer (env_of right) right_7 ≡ (done false, right_8)
unfolding peer_round leave_when_due poll_round announce receive_proxy receive_data handle_msg
    handle_welcome handle_connect handle_disconnect force_cleanup send_connect_msg strings_fit is_on
    note_failure lookup insert erase str_eq polls script item reading finding clock reply_of
right_8-runs = refl

abbrev pub right_9 : World Peers
right_9 = record {
  calls = takes ∷ kick ∷ polled ∷ right_8.calls;
  log = [];
  vars = entry right_peer ∷ [];
}

pub right_9-runs : peer_round right_peer (env_of right) right_8 ≡ (done false, right_9)
unfolding peer_round leave_when_due poll_round announce receive_proxy receive_data handle_msg
    handle_welcome handle_connect handle_disconnect force_cleanup send_connect_msg strings_fit is_on
    note_failure lookup insert erase str_eq polls script item reading finding clock reply_of
right_9-runs = refl
