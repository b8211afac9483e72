-- ===== src/Peer/Reconnect.antt =====
-- `reconnect/peer.cpp`: `sendConnectMsg` and the loop of `main`, which is the loop of
-- `3186/peer.cpp` without its switches, but with the option that stops reconnecting.
pub mod Agreement
pub mod Main
use zmqtests.Base.{
  ℕ, zero, suc, Bool, true, false, not, none, some, List, [], ◌∷◌, ◌==◌, if◌then◌else◌,
}
use zmqtests.Base.Int.{ℤ, pos}
use zmqtests.Base.Table.{lookup, insert, erase}
use zmqtests.Base.Text.{Bytes, str_eq}
use zmqtests.Zmq.{
  Addr, ConnectMsg, connect, no_flag, zmq_connect, zmq_disconnect, zmq_poll, zmq_send, zmq_recv,
  zmq_setsockopt, zmq_reconnect_stop, int_value, ready_0, ready_1,
}
use zmqtests.Zmq.Monad.{
  M, ◌>>=◌, ◌>>◌, ret, skip, vars, set_vars, run_call, when, assert, call_int_func, logged,
}
use zmqtests.Peer.Table.{
  bytes_key, Peers, strings_fit, connect_command, disconnect_command, welcome_command,
}

-- The variables that the loop does not change. `has_stop` says whether the libzmq that the program
-- is built with defines `ZMQ_RECONNECT_STOP`.
pub record Setup : Type 0 where
  pub has_stop : Bool
  pub stop_reconnect_on_error : ℤ
  pub the_uuid : Bytes
  pub pub_endpoint : Bytes
  pub proxy_pub : Addr
  pub proxy_sub : Addr
  pub data_sub : Addr

unfoldable pub send_connect_msg : Addr → ℕ → Bytes → Bytes → M Peers (Unit {0})
unfolding strings_fit
send_connect_msg socket command uuid endpoint = do
  assert (strings_fit uuid endpoint)
  run_call (
      zmq_send socket (connect (record { command = command; uuid = uuid; endpoint = endpoint }))
        no_flag)

module _ (s : Setup) where
  unfoldable pub announce : M Peers (Unit {0})
  unfolding send_connect_msg
  announce = do
    peers ← vars
    elim (lookup s.the_uuid peers) [
      | none ↦ send_connect_msg s.proxy_pub connect_command s.the_uuid s.pub_endpoint
      | some e ↦ skip
    ]

  unfoldable pub handle_welcome : ConnectMsg → M Peers Bool
  handle_welcome msg = do
    when s.has_stop (
        logged
          (zmq_setsockopt s.proxy_pub zmq_reconnect_stop (int_value s.stop_reconnect_on_error)))
    logged (zmq_connect s.proxy_pub msg.endpoint)
    ret false

  unfoldable pub handle_connect : ConnectMsg → M Peers Bool
  unfolding send_connect_msg
  handle_connect msg = do
    peers ← vars
    elim (lookup msg.uuid peers) [
      | none ↦ (do
        set_vars (insert msg.uuid msg.endpoint peers)
        logged (zmq_connect s.data_sub msg.endpoint)
        when (not (str_eq msg.uuid s.the_uuid))
            (send_connect_msg s.proxy_pub connect_command s.the_uuid s.pub_endpoint)
        ret false)
      | some e ↦ ret false
    ]

  unfoldable pub handle_disconnect : ConnectMsg → M Peers Bool
  handle_disconnect msg = do
    peers ← vars
    elim (lookup msg.uuid peers) [
      | none ↦ ret false
      | some e ↦ (do
        set_vars (erase msg.uuid peers)
        logged (zmq_disconnect s.data_sub msg.endpoint)
        ret (str_eq msg.uuid s.the_uuid))
    ]

  unfoldable pub handle_msg : ConnectMsg → M Peers Bool
  handle_msg msg =
      if msg.command == welcome_command
      then handle_welcome msg
      else if msg.command == connect_command
      then handle_connect msg
      else if msg.command == disconnect_command
      then handle_disconnect msg
      else ret false

  -- One round of the loop: `true` when it is left by its `break`.
  unfoldable pub peer_round : M Peers Bool
  peer_round = do
    p ← call_int_func (zmq_poll (s.proxy_sub ∷ s.data_sub ∷ []) (pos 1000))
    announce
    leaving ←
        (if ready_0 p.ready
          then (do r ← call_int_func (zmq_recv s.proxy_sub); handle_msg r.connect_msg)
          else ret false)
    (if leaving
        then ret true
        else (do when (ready_1 p.ready) (logged (zmq_recv s.data_sub)); ret false))

  -- The loop with fuel: `true` when it has been left.
  unfoldable pub peer_loop : ℕ → M Peers Bool
  peer_loop zero = ret false
  peer_loop (suc fuel) =
      let rest = peer_loop fuel in do leaving ← peer_round; (if leaving then ret true else rest)
