-- ===== src/Tests/Schedule.antt =====
-- A run of one control thread and the main loop with each other.
use zmqtests.Base.{List, ℕ, ◌≡◌, ◌<◌, ◌↔◌, ◌++◌, true, refl, false, [], ◌∷◌, arith}
use zmqtests.Base.Int.{pos}
use zmqtests.Base.Table.{at, insert, lookup, touch}
use zmqtests.Zmq.{Addr, World, done}
use zmqtests.Zmq.Monad.{check_void, check_int}
use zmqtests.Threads.Globals.{addr_key, Globals, initial}
use zmqtests.Threads.Control.{process_control_msg}
use zmqtests.Threads.Sending.{next_msg_num, count_sent, command_round}
use zmqtests.Threads.Sending.Sequence.{sent, ping}
use zmqtests.Threads.Detection.{numbers}
use zmqtests.Threads.Main.{
  client_server_start, client_server_finish, control_sockets, start, start_threads, start_commands,
  launch, init_context, thread_addr, register, pairs_start, pairs_finish,
}
use zmqtests.Threads.Main.EndToEnd.{pairs}
use zmqtests.Threads.Schedule.{
  Config, Run, here, one_more, send, receive, lose, after_send, after_receive, after_loss,
}
use zmqtests.Threads.Schedule.Start.{is_thread, at_work}
use zmqtests.Threads.Schedule.ExitCode.{main-eq-zero_iff, client_server_finish-eq-zero_iff}
use zmqtests.Threads.Schedule.Rounds.{Receives, command_round-after_send, serve_round-after_receive}
use zmqtests.Threads.Serving.{serve_round}
use zmqtests.Threads.Delivery.{send_command-Sends}
use zmqtests.Threads.ClientServer
use zmqtests.Base.Text.{bytes}
use zmqtests.Threads.Sockets.{create_socket}
use zmqtests.Threads.Params.CommandLine.{AreFit, Wish, threads_wish, msgs_wish}
use zmqtests.Programs.ThreadsRun.{threads_start-granted, threads_start-eq-zero_iff}
use zmqtests.Tests.Params.{whole_sleep, program_is_none}
use zmqtests.Tests.Threads.{working, working-Succeeds, world_of}

abbrev two_pings : World Globals
two_pings = world_of (record initial { num_threads = pos 1; num_msgs = pos 2 })

abbrev begun : Config
begun = at_work 5 1 (pairs_start 5 working two_pings).1.vars

-- The first ping is received before the second one is sent, which is lost.
abbrev over : Config
over =
    after_loss [] (ping 5 2) [] (after_send 5 (after_receive [] (ping 5 1) [] (after_send 5 begun)))

begun-Run : Run begun over
unfolding start start_threads start_commands launch init_context check_void check_int is_thread
    thread_addr next_msg_num count_sent at lookup insert process_control_msg register numbers touch
begun-Run =
    one_more
      (one_more
        (one_more (one_more here (send 5 begun refl refl))
          (receive [] (ping 5 1) [] _ refl refl (λ t e. refl)))
        (send 5 _ refl refl))
      (lose [] (ping 5 2) [] _ refl)

over-ended : (t : Addr) → over.working t ≡ false
unfolding start start_threads start_commands launch init_context check_void check_int is_thread
    thread_addr next_msg_num count_sent at lookup insert process_control_msg register touch
over-ended t = grind arith

main-eq-zero_iff_example :
    ((pairs_finish 7 (8 ∷ []) working (world_of over.globals)).0 ≡ done 0) ↔ (
      (i : ℕ)
      → i < 1
      → (numbers (thread_addr 5 i) over.queue ≡ []) × (numbers (thread_addr 5 i) over.lost ≡ []))
main-eq-zero_iff_example =
    main-eq-zero_iff pairs_start pairs_finish pairs working working 5 1 1 two_pings
      (world_of over.globals) over 7 (8 ∷ []) working-Succeeds (λ cs. ground arith) working-Succeeds
      refl refl refl refl refl begun-Run over-ended refl

thread_5 : begun.working 5 ≡ true
unfolding is_thread thread_addr
thread_5 = refl

-- Control sockets 3 and 4.
command_round-after_send_example :
    ((command_round (ClientServer.send_command 3 4) 5 working (world_of begun.globals)).0
      ≡ done ((after_send 5 begun).working 5))
    × ((command_round (ClientServer.send_command 3 4) 5 working (world_of begun.globals)).1.vars
        ≡ record ((after_send 5 begun).globals) {
          specific =
              (command_round
                (ClientServer.send_command 3 4)
                5
                working
                (world_of begun.globals)).1.vars.specific;
        })
    × (sent
          (command_round (ClientServer.send_command 3 4) 5 working (world_of begun.globals)).1.calls
        ≡ sent [] ++ ping 5 (next_msg_num begun.globals 5) ∷ [])
command_round-after_send_example =
    command_round-after_send (ClientServer.send_command 3 4) working
      ((send_command-Sends working working-Succeeds).3 3 4) 5 (world_of begun.globals) begun refl
      thread_5

serve_round-after_receive_example :
    Receives working 3 begun
      (world_of begun.globals)
      (serve_round 3 4 working (world_of begun.globals)).1
serve_round-after_receive_example =
    serve_round-after_receive working 3 4 (ground arith) (world_of begun.globals) begun refl

same_vars :
    (client_server_start 5 working two_pings).1.vars ≡ (pairs_start 5 working two_pings).1.vars
unfolding start start_threads start_commands launch init_context client_server_start control_sockets
    check_void check_int register insert create_socket
same_vars = refl

client_server_finish-eq-zero_iff_example :
    ((client_server_finish 7 7 7 (8 ∷ []) working (world_of over.globals)).0 ≡ done 0) ↔ (
      (i : ℕ)
      → i < 1
      → (numbers (thread_addr 5 i) over.queue ≡ []) × (numbers (thread_addr 5 i) over.lost ≡ []))
client_server_finish-eq-zero_iff_example =
    client_server_finish-eq-zero_iff working working 5 1 1 two_pings (world_of over.globals) over 7
      7 7 (8 ∷ []) working-Succeeds (λ cs. ground arith) working-Succeeds refl refl refl refl refl
      (rw same_vars begun-Run) over-ended refl

abbrev wishes : List Wish
wishes = threads_wish (pos 1) ∷ msgs_wish (pos 2) ∷ []

wishes-AreFit : AreFit wishes
wishes-AreFit = ((omega arith, omega arith), ((omega arith, omega arith), tt))

threads_start-eq-zero_iff_example :
    ((pairs_finish 7 (8 ∷ []) working (world_of over.globals)).0 ≡ done 0) ↔ (
      (i : ℕ)
      → i < 1
      → (numbers (thread_addr 5 i) over.queue ≡ []) × (numbers (thread_addr 5 i) over.lost ≡ []))
unfolding start init_context start_threads launch start_commands
threads_start-eq-zero_iff_example =
    threads_start-eq-zero_iff pairs_start pairs_finish pairs whole_sleep (bytes "./pairs") wishes
      working working 5 1 1 (world_of initial) (world_of over.globals) over 7 (8 ∷ [])
      program_is_none wishes-AreFit refl refl refl (omega arith) (omega arith) working-Succeeds
      (λ cs. ground arith) working-Succeeds
      (rw
        (threads_start-granted whole_sleep pairs_start (bytes "./pairs") wishes 5 working
          (world_of initial) program_is_none wishes-AreFit)
        begun-Run)
      over-ended refl
