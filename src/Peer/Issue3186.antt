-- ===== src/Peer/Issue3186.antt =====
-- `3186/peer.cpp`: `sendConnectMsg` and the loop of `main`. The switches are those of
-- `3186/params.c`; the loop's sockets and strings are made before it.
pub mod Directory
pub mod Links
pub mod Loop
pub mod Run
pub mod Balance
pub mod Main
pub mod Sockets
use zmqtests.Base.{
  ℕ, zero, suc, Bool, true, false, not, ◌&&◌, Option, none, some, List, [], ◌∷◌, ◌==◌,
  if◌then◌else◌,
}
use zmqtests.Base.Int.{ℤ, pos, ltb_ℤ, eqb_ℤ}
use zmqtests.Base.Table.{lookup, insert, erase}
use zmqtests.Base.Text.{Bytes, bytes, str_eq}
use zmqtests.Zmq.{
  Addr, ConnectMsg, connect, raw, no_flag, zmq_dontwait, zmq_events, zmq_connect, zmq_disconnect,
  zmq_poll, zmq_send, zmq_recv, zmq_getsockopt, time, Call, ready_0, ready_1,
}
use zmqtests.Zmq.Monad.{
  M, ◌>>=◌, ◌>>◌, ret, skip, vars, set_vars, call, run_call, when, assert, call_int_func, logged,
}
use zmqtests.Peer.Table.{
  bytes_key, Peers, strings_fit, connect_command, disconnect_command, welcome_command,
}

-- The `int` switches that the loop reads.
pub record Params : Type 0 where
  pub fix1256 : ℤ
  pub send_after_disconnect : ℤ
  pub immediate_exit : ℤ
  pub duplicate_disconnect : ℤ
  pub poll_after_disconnect : ℤ

-- The variables that the loop does not change.
pub record Setup : Type 0 where
  pub params : Params
  pub open params use *
  pub the_uuid : Bytes
  pub pub_endpoint : Bytes
  pub data_pub : Addr
  pub proxy_pub : Addr
  pub proxy_sub : Addr
  pub data_sub : Addr
  pub end_time : ℤ

-- `x == 1`
unfoldable pub is_on : ℤ → Bool
is_on x = eqb_ℤ x (pos 1)

unfoldable pub send_connect_msg : Addr → ℕ → Bytes → Bytes → M Peers (Unit {0})
unfolding strings_fit
send_connect_msg socket command uuid endpoint = do
  assert (strings_fit uuid endpoint)
  run_call (
      zmq_send socket (connect (record { command = command; uuid = uuid; endpoint = endpoint }))
        no_flag)

module _ (s : Setup) where
  -- The end of the time given: the disconnect message, and whether the loop is left at once.
  unfoldable pub leave_when_due : M Peers Bool
  unfolding send_connect_msg
  leave_when_due =
      if ltb_ℤ (pos 0) s.end_time
      then (do
        now ← call time
        (if ltb_ℤ s.end_time now.rc
            then (do
              send_connect_msg s.proxy_pub disconnect_command s.the_uuid s.pub_endpoint
              ret (is_on s.immediate_exit))
            else ret false))
      else ret false

  -- A connect message goes out in every round until the peer has met itself.
  unfoldable pub announce : M Peers (Unit {0})
  unfolding send_connect_msg
  announce = do
    peers ← vars
    elim (lookup s.the_uuid peers) [
      | none ↦ send_connect_msg s.proxy_pub connect_command s.the_uuid s.pub_endpoint
      | some e ↦ skip
    ]

  unfoldable pub handle_welcome : ConnectMsg → M Peers Bool
  handle_welcome msg = do logged (zmq_connect s.proxy_pub msg.endpoint); ret false

  unfoldable pub handle_connect : ConnectMsg → M Peers Bool
  unfolding send_connect_msg
  handle_connect msg = do
    peers ← vars
    elim (lookup msg.uuid peers) [
      | none ↦ (do
        set_vars (insert msg.uuid msg.endpoint peers)
        logged (zmq_connect s.data_sub msg.endpoint)
        when (not (str_eq msg.uuid s.the_uuid))
            (send_connect_msg s.proxy_pub connect_command s.the_uuid s.pub_endpoint)
        ret false)
      | some e ↦ ret false
    ]

  -- The rest of the disconnect branch behind the own-uuid test.
  unfoldable pub force_cleanup : M Peers Bool
  force_cleanup = do
    when (is_on s.send_after_disconnect) (logged (zmq_send s.data_pub (raw []) zmq_dontwait))
    ret false

  unfoldable pub handle_disconnect : ConnectMsg → M Peers Bool
  unfolding force_cleanup
  handle_disconnect msg = do
    peers ← vars
    elim (lookup msg.uuid peers) [
      | none ↦ ret false
      | some e ↦ (do
        set_vars (erase msg.uuid peers)
        logged (zmq_disconnect s.data_sub msg.endpoint)
        when (is_on s.duplicate_disconnect) (logged (zmq_disconnect s.data_sub msg.endpoint))
        when (is_on s.poll_after_disconnect) (logged (zmq_getsockopt s.data_pub zmq_events))
        (if str_eq msg.uuid s.the_uuid then ret true else force_cleanup))
    ]

  -- The dispatch on the command, and whether the loop is left.
  unfoldable pub handle_msg : ConnectMsg → M Peers Bool
  handle_msg msg =
      if msg.command == welcome_command
      then handle_welcome msg
      else if msg.command == connect_command
      then handle_connect msg
      else if msg.command == disconnect_command
      then handle_disconnect msg
      else ret false

  -- `pollitems[0].revents & ZMQ_POLLIN`: the message is read, whether or not `zmq_recv` succeeds.
  unfoldable pub receive_proxy : List Bool → M Peers Bool
  receive_proxy ready =
      if ready_0 ready
      then (do r ← call_int_func (zmq_recv s.proxy_sub); handle_msg r.connect_msg)
      else ret false

  unfoldable pub receive_data : List Bool → M Peers (Unit {0})
  receive_data ready = when (ready_1 ready) (logged (zmq_recv s.data_sub))

  -- What a round does behind the time check.
  unfoldable pub poll_round : M Peers Bool
  poll_round = do
    p ← call_int_func (zmq_poll (s.proxy_sub ∷ s.data_sub ∷ []) (pos 1000))
    when (is_on s.fix1256) (logged (zmq_getsockopt s.data_pub zmq_events))
    announce
    leaving ← receive_proxy p.ready
    (if leaving then ret true else (do receive_data p.ready; ret false))

  -- One round of the loop: `true` when it is left by a `break`.
  unfoldable pub peer_round : M Peers Bool
  peer_round = do due ← leave_when_due; (if due then ret true else poll_round)

  -- The loop with fuel: `true` when it has been left.
  unfoldable pub peer_loop : ℕ → M Peers Bool
  peer_loop zero = ret false
  peer_loop (suc fuel) =
      let rest = peer_loop fuel in do leaving ← peer_round; (if leaving then ret true else rest)
