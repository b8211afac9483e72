-- ===== src/Lib.antt =====
-- Test programs for libzmq: the threads programs, the peer programs and the socket monitors.
--
-- The programs call libzmq, pthreads and the C library, which are not in the repository. A program
-- is therefore a function of an environment, which answers every call after the calls made before
-- it (`Env`), and of a world, which holds the calls made so far, newest first, the lines written to
-- stderr and the program's variables (`World`). It returns a result, or it aborts where an assert
-- fails, where the code exits, or where a buffer would be overrun (`Outcome`). What is asked of
-- the calls is a hypothesis on the environment, such as `Succeeds`. Blocking is not modelled: a
-- call that never returns is a run that is not there.
--
-- Zmq.antt, Zmq/Monad.antt, Zmq/Rules.antt: the calls, the messages and the world; sequencing, the
--   helpers checkVoid, checkInt (threads/common.h) and CALL_INT_FUNC (the common.h files); the rule
--   by which an invariant goes through a sequence of calls.
--
-- Threads.antt and below: the four programs of threads/. Each control thread runs commandLoop,
--   which counts its pings and hands them to sendCommand of the program; the main thread runs
--   mainLoop, which polls the control and the data socket and gives control messages to
--   processControlMsg; main compares the counters at the end.
--   Globals: the global variables of threads/common.h. Control: processControlMsg and
--   processDataMsg. Sockets: createSocket, closeSocket, cleanupSocket. Sending: sendControlMsg,
--   commandLoop, shutdownFunc. Serving: the loop of mainLoop. Results: checkResults, printResults,
--   onSignal and the exit code. PubSub, PushPull, Pairs, ClientServer: sendCommand and mainLoop of
--   threads/pubsub.cpp, pushpull.cpp, pairs.cpp and clientserver.cpp.
--   Main: main of the four programs in two parts, up to the start of the control threads and from
--   their end on. Params: parseParams of threads/common.h.
--   Schedule: the control threads, the messages on their way and the main loop as a step relation
--   (`Step`): a round of a command loop, the receipt or the loss of a message, and the message to
--   shut down are one step each, and steps of different threads come in any order. A round can be one
--   step since each thread writes its own entry of the counters, and sends behind the count.
--   The counters are association lists; a std::map holds the same entries in the order of their keys.
--   Proofs: Sending/Sequence, Serving/Received, Detection, ExitCode, Delivery, Delivery/Whole,
--   SocketUse, Main/Registered, Parts, EndToEnd, Params/CommandLine and Schedule/Order, Counters,
--   Start, ExitCode, Rounds.
--
-- Peer.antt and below: the peers that find each other through a proxy. Issue3186: sendConnectMsg
--   and the loop of main of 3186/peer.cpp, Issue3186/Main: the rest of main; Reconnect and
--   Reconnect/Main: the same of reconnect/peer.cpp; Proxy: 3186/proxy.c and reconnect/proxy.cpp.
--   The table of known peers is the only variable of the loops that changes; its order is not that
--   of std::map, which no code of these files depends on.
--   Network: any number of peers of 3186/peer.cpp and the proxy as a step relation (`Step`). A step is
--   a whole round of one peer's loop, `peer_round` of Issue3186 with whatever its calls reply, or a
--   subscription or a connection that libzmq brings about. The premises of a round say that the
--   messages which `zmq_recv` wrote in it are the next on their way to the peer, and the proxy
--   forwards what the round has published to all who have subscribed by then, in order; it gives each
--   new subscriber the welcome message that it was set. What a peer publishes before its connection to
--   the proxy stands is lost. A peer that has left its loop makes no more rounds. It closes its sockets
--   right behind the loop; libzmq sends what such a socket still has to send only for the linger period,
--   which is 0 unless the command line says otherwise, so that any message of it can be lost, unless it
--   lingers (`lingers`), which stands for -linger -1. `IsSteady` says that no call
--   sets the clock back, which time() promises only as long as nobody sets the system's clock.
--   Two peers that publish at once do so in one of two orders, as the proxy reads one message at a time.
--   Proofs: Issue3186/Directory, Loop, Run, Links, Balance, Sockets, Reconnect/Agreement,
--   and Network/Rounds, Rounds/Whole, Messages, Knowledge, Clock, Turns, Invariant and
--   below, Reached, Start, Agreement, Meeting.
--
-- Monitor.antt and below: the socket monitors. Events: get_zmqEventName. Frames: monitorEvent and
--   monitorEvent_v2 of connect/monitor.cpp; the other two monitor.cpp files have get_zmqEventName
--   and monitorEvent word for word (Copies). Lifecycle: startMonitor, stopMonitor, monitorFunc of 3186/,
--   reconnect/ and connect/, and connectMonitor of reconnect/connect.cpp. Connect: main of
--   connect/connect.cpp, connect/dummy.cpp and reconnect/connect.cpp.
--   Proofs: Decoding.
--
-- Params.antt and below: parseParams of the four params.c files. Params: the loop over the arguments
--   and its tests (`Rule`); Issue3186: 3186/params.c; Reconnect: reconnect/params.c and
--   connect/params.c; PingPong: pingpong/params.c. The texts printed with log_msg are left out.
--   Proofs: Line, Names, Issue3186/RoundTrip.
--
-- Common.antt and below: getTimestamp, log_msg, kickSocket and kickSocket2 of 3186/common.c; Copies: the
--   same functions of the other three common.c files. A line is a text here; the programs' models keep
--   only that a line was printed and its values. Proofs: Lines, with Pieces.
--
-- Clib.antt and below: the functions of the C library that read and write numbers and compare texts
--   (atoi, the conversions %d and %0nd, strcasecmp, strncasecmp), as the programs use them.
--
-- PingPong.antt and below: Ping and Pong: main of pingpong/ping.cpp and pingpong/pong.cpp; Sockets:
--   what both have, and kickSocket and getMicros of pingpong/common.c. Proofs: Session, EndToEnd.
--
-- Programs.antt: the programs from their command line on: parseParams, the uuid, the text that sprintf
--   makes of the address and the port, and main; the threads programs up to the start of their
--   threads, with printVersion and the signal handler, which is on_signal of Results.
--   Proofs: Programs/Endpoints, Programs/ThreadsRun.
--
-- Base.antt and below: Boolean tests on numbers, integers, bytes, and association lists with the
--   operations of std::map that the programs use. Tests.antt and below: runs on concrete inputs.
--
-- Loops take fuel, and say by their result whether they have ended. For `command_loop` fuel of one
-- more than the number of messages is enough, since every round sends one. The loops of mainLoop and
-- of the peers end only when a message says so, so that no fuel is enough for all runs; the model
-- makes as many rounds as there is fuel; so does the loop of pong, which has no end. The loops over
-- a command line have fuel for one round for each argument, which is enough. For ping fuel of the
-- number of requests is enough.
--
-- Numbers are unbounded in the model: the counters of `long` and the constants stay far below 2^63,
-- and `atoi` has no meaning for a number outside `int`: there parseParams gives `undefined`, as it
-- does for -rate 0, whose quotient no `int` holds, and the theorems about command lines ask their
-- numbers to be of type `int` (`IsInt`). Where the microseconds of the sleep at the exit overflow `int`
-- the model of 3186/peer.cpp aborts; for the sleep of the threads programs, whose microseconds are
-- unbounded in the model, the theorem from the command line on asks for a bound. The
-- numbers of a control message are not negative, as the programs send no others. The texts of a
-- `connectMsg` are taken up to the zero that closes them: a message without one, which the code would
-- read past its array, is left out, and is excluded where the calls may reply anything. Lines printed on
-- every run, and those behind the debug switch, are left out.
--
-- Not modelled: threads/sample.c and zhelpers.h, copies from the guide of ZeroMQ, the shell scripts and
-- build files, and the copy of a libzmq source under libzmq/. That a signal comes while a program runs
-- is not modelled either: of the handlers, on_signal is a function, and that of the proxies is empty.
pub mod Base
pub mod Zmq
pub mod Threads
pub mod Peer
pub mod Monitor
pub mod Clib
pub mod Common
pub mod Params
pub mod PingPong
pub mod Programs
pub mod Tests
