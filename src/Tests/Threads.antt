-- ===== src/Tests/Threads.antt =====
-- Runs of the parts of the threads programs.
use zmqtests.Base.{ℕ, suc, ◌++◌, ◌≡◌, ◌<◌, ◌≢◌, refl, ◌↔◌, true, false, List, [], ◌∷◌, arith}
use zmqtests.Base.Int.{pos, ltb_ℤ}
use zmqtests.Base.Table.{at, lookup, insert, touch}
use zmqtests.Tests.{no_reply}
use zmqtests.Zmq.{
  Addr, ControlMsg, control, Call, zmq_socket, zmq_ctx_new, zmq_send, zmq_poll, zmq_msg_recv, Reply,
  Env, World, done,
}
use zmqtests.Threads.Globals.{
  addr_key, Globals, initial, ping_command, exit_command, control_msg_size,
}
use zmqtests.Threads.Control.{process_control_msg}
use zmqtests.Threads.Sending.{command_loop}
use zmqtests.Threads.Sending.Sequence.{IsSender, Ends, quota, command_loop-sends}
use zmqtests.Threads.Serving.{serve_loop}
use zmqtests.Threads.Serving.Received.{accepted, IsServed, IsDone, serve_loop-serves}
use zmqtests.Threads.Detection.{
  process_all, numbers, Consecutive, received, count_from, process_all-failed,
}
use zmqtests.Threads.Results.{exit_code}
use zmqtests.Threads.ExitCode.{IsStarted, IsRegistered, OnlyRegistered, exit_zero_iff_delivered}
use zmqtests.Threads.Main.{
  thread_addr, pairs_start, pairs_finish, client_server_start, client_server_finish,
}
use zmqtests.Threads.Main.Parts.{IsReturned}
use zmqtests.Threads.Main.EndToEnd.{pairs, main-eq-zero, client_server_finish-eq-zero}
use zmqtests.Threads.Delivery.{Succeeds, send_command-Sends}
use zmqtests.Threads.Delivery.Whole.{taken, IsSendCommand, send_command-taken}
use zmqtests.Threads.SocketUse.{
  sockets_made, send_all, pub_sub, send_all-sockets_made, is_connected, unguarded, last_made,
  is_locked, pairs-releases,
}
use zmqtests.Threads.PubSub
use zmqtests.Threads.PushPull
use zmqtests.Threads.Pairs
use zmqtests.Threads.ClientServer

abbrev ping_1 : ControlMsg
ping_1 = record { command = ping_command; void_arg = 5; long_arg = 1 }

abbrev ping_2 : ControlMsg
ping_2 = record { command = ping_command; void_arg = 5; long_arg = 2 }

abbrev exit_msg : ControlMsg
exit_msg = record { command = exit_command; void_arg = 0; long_arg = 0 }

-- Everything succeeds: socket 7 is made, control messages are taken whole, and the poll sees a
-- control message, first a ping, then an exit command.
abbrev working_reply : List Call → Call → Reply
working_reply cs (zmq_socket ctx ty) = record no_reply { ptr = 7 }
working_reply cs (zmq_send s (control m) f) = record no_reply { rc = pos control_msg_size }
working_reply cs (zmq_poll ss t) = record no_reply { ready = true ∷ [] }
working_reply (c ∷ []) (zmq_msg_recv s) = record no_reply { control_msg = ping_1 }
working_reply cs (zmq_msg_recv s) = record no_reply { control_msg = exit_msg }
working_reply cs zmq_ctx_new = record no_reply { ptr = 9 }
working_reply cs c = no_reply

abbrev pub working : Env
working = working_reply

working-nonneg : (cs : List Call) (c : Call) → ltb_ℤ (working cs c).rc (pos 0) ≡ false
working-nonneg cs c = ground arith

pub working-Succeeds : Succeeds working
working-Succeeds = record {
  nonneg = working-nonneg;
  made = λ cs ctx ty. ground arith;
  whole = λ cs s m f. refl;
}

abbrev pub world_of : Globals → World Globals
world_of g = record { calls = []; log = []; vars = g }

abbrev two_messages : Globals
two_messages = record initial { num_msgs = pos 2 }

-- A world in which thread 5 is registered and has sent two pings.
abbrev registered : Globals
registered = record initial {
  num_msgs = pos 2;
  max_control_msg_sent = (5, 2) ∷ [];
  max_control_msg_received = (5, 0) ∷ [];
}

abbrev arrivals : List ControlMsg
arrivals = ping_1 ∷ ping_2 ∷ exit_msg ∷ []

registered-IsStarted : IsStarted 2 registered
unfolding lookup
registered-IsStarted = record {
  asked = refl;
  not_failed = refl;
  distinct = (refl, tt);
  at_zero = λ t v e. ground arith;
  all_sent = (refl, tt);
}

registered-OnlyRegistered : OnlyRegistered registered arrivals
unfolding lookup numbers
registered-OnlyRegistered t e = ground arith

exit_zero_iff_delivered_example :
    (exit_code (process_all registered arrivals) ≡ 0)
    ↔ ((t : Addr) → IsRegistered registered t → numbers t arrivals ≡ count_from 0 2)
exit_zero_iff_delivered_example =
    exit_zero_iff_delivered registered 2 arrivals registered-IsStarted registered-OnlyRegistered

-- Both sides hold on this input.
registered-delivered : exit_code (process_all registered arrivals) ≡ 0
unfolding exit_code process_all process_control_msg at insert touch
registered-delivered = refl

-- One control thread, at the address 5.
abbrev one_thread : World Globals
one_thread = world_of (record initial { num_threads = pos 1; num_msgs = pos 2 })

abbrev at_exit : World Globals
at_exit = world_of (
    process_all
      (record ((pairs_start 5 working one_thread).1.vars) { max_control_msg_sent = (5, 2) ∷ [] })
      arrivals)

only_thread : (t : Addr) → ((i : ℕ) → i < 1 → t ≢ thread_addr 5 i) → numbers t arrivals ≡ []
unfolding numbers thread_addr
only_thread t other = let apart = other 0 (omega arith) in ground arith

main-eq-zero_example :
    IsReturned (pairs_start 5 working one_thread).0
    × (((pairs_finish 7 (8 ∷ []) working at_exit).0 ≡ done 0)
        ↔ ((i : ℕ) → i < 1 → numbers (thread_addr 5 i) arrivals ≡ count_from 0 2))
main-eq-zero_example =
    main-eq-zero pairs_start pairs_finish pairs working working 5 2 1 one_thread at_exit
      ((5, 2) ∷ []) arrivals 7 (8 ∷ []) working-Succeeds (λ cs. ground arith) working-Succeeds refl
      refl refl refl (refl, tt) only_thread refl

abbrev at_client_server_exit : World Globals
at_client_server_exit = world_of (
    process_all
      (record ((client_server_start 5 working one_thread).1.vars) {
        max_control_msg_sent = (5, 2) ∷ [];
      })
      arrivals)

client_server_finish-eq-zero_example :
    IsReturned (client_server_start 5 working one_thread).0
    × (((client_server_finish 7 7 7 (8 ∷ []) working at_client_server_exit).0 ≡ done 0)
        ↔ ((i : ℕ) → i < 1 → numbers (thread_addr 5 i) arrivals ≡ count_from 0 2))
client_server_finish-eq-zero_example =
    client_server_finish-eq-zero working working 5 2 1 one_thread at_client_server_exit
      ((5, 2) ∷ []) arrivals 7 7 7 (8 ∷ []) working-Succeeds (λ cs. ground arith) working-Succeeds
      refl refl refl refl (refl, tt) only_thread refl

process_all-failed_example : ((process_all registered arrivals).failed ≡ false) ↔ (
    (registered.failed ≡ false)
    × ((t : Addr) → Consecutive (received t registered) (numbers t arrivals)))
process_all-failed_example = process_all-failed registered arrivals

command_loop-sends_example :
    Ends 5
      (world_of two_messages)
      (count_from 0 (quota (pos 2)))
      (quota (pos 2))
      (command_loop (ClientServer.send_command 3 4) 2 5 working (world_of two_messages)).0
      (command_loop (ClientServer.send_command 3 4) 2 5 working (world_of two_messages)).1
unfolding at lookup quota
command_loop-sends_example =
    command_loop-sends (ClientServer.send_command 3 4) working
      ((send_command-Sends working working-Succeeds).3 3 4) 1 5 (world_of two_messages)
      (omega arith) refl refl

serve_loop-serves_example :
    IsServed working 3 two_messages (serve_loop 5 3 4 working (world_of two_messages)).1
    × IsDone (serve_loop 5 3 4 working (world_of two_messages)).0
unfolding accepted
serve_loop-serves_example =
    serve_loop-serves working 3 4 (ground arith) 5 (world_of two_messages) refl refl

-- Socket 3 stands in the slot of the thread.
abbrev with_socket : World Globals
with_socket = world_of (record initial { specific = 3 })

with_socket-returns : (PubSub.send_command ping_1 working with_socket).0 ≡ done tt
unfolding PubSub.send_command
with_socket-returns = refl

send_command-taken_example :
    taken working (PubSub.send_command ping_1 working with_socket).1.calls
    ≡ taken working [] ++ ping_1 ∷ []
send_command-taken_example =
    send_command-taken PubSub.send_command IsSendCommand.pub_sub working ping_1 with_socket
      with_socket-returns

send_command-Sends_example :
    IsSender PubSub.send_command working
    × IsSender PushPull.send_command working
    × IsSender Pairs.send_command working
    × ((control_pub control_sub : Addr)
        → IsSender (ClientServer.send_command control_pub control_sub) working)
send_command-Sends_example = send_command-Sends working working-Succeeds

send_all-sockets_made_example :
    ((send_all PubSub.send_command (ping_1 ∷ ping_2 ∷ []) working (world_of two_messages)).0
      ≡ done tt)
    × (sockets_made
          (send_all PubSub.send_command
            (ping_1 ∷ ping_2 ∷ [])
            working
            (world_of two_messages)).1.calls
        ≡ suc (sockets_made []))
    × ((send_all PubSub.send_command
          (ping_1 ∷ ping_2 ∷ [])
          working
          (world_of two_messages)).1.vars.specific
        ≡ last_made working
            (send_all PubSub.send_command
              (ping_1 ∷ ping_2 ∷ [])
              working
              (world_of two_messages)).1.calls)
    × ((send_all PubSub.send_command
          (ping_1 ∷ ping_2 ∷ [])
          working
          (world_of two_messages)).1.vars.specific
        ≢ 0)
send_all-sockets_made_example =
    send_all-sockets_made working working-Succeeds (λ cs s. refl) PubSub.send_command pub_sub ping_1
      (ping_2 ∷ []) (world_of two_messages) refl

abbrev locking : World Globals
locking = world_of (record two_messages { mutex_flag = true })

pairs-releases_example :
    ((s : Addr)
      → is_connected working s (Pairs.send_command ping_1 working locking).1.calls ≡ false)
    × (is_locked working (Pairs.send_command ping_1 working locking).1.calls ≡ false)
    × (unguarded working (Pairs.send_command ping_1 working locking).1.calls ≡ unguarded working [])
unfolding is_connected
pairs-releases_example =
    let p =
      pairs-releases working (λ cs. refl) (λ cs. refl) ping_1 locking
        ((send_command-Sends working working-Succeeds).2 ping_1 locking).returns (λ s. refl) in
    (p.0, p.1, p.2 refl)
