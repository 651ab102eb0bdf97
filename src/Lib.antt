-- ===== src/Lib.antt =====
-- runnerd, a daemon that runs jobs for its clients, and runnerctl, the client.
--
-- A client turns its command line into a request (src/runnerctl_main.cpp), encodes it and puts it in
-- a frame (src/protocol.cpp). The daemon takes the frames out of the stream and decodes them. A job
-- (src/job.cpp) waits in the scheduler's queue for a running slot (src/job_scheduler.cpp), and the
-- timeout manager (src/timeout_manager.cpp) holds one deadline for each job that has one. The process
-- monitor (src/process_monitor.cpp) starts the processes, reads their pipes, sends them signals and
-- settles their jobs; it tells the daemon of each job that has ended by a callback. The responses of
-- the daemon (src/runnerd_main.cpp) go back in frames.
--
-- Prelude: tests on numbers, lists, association lists, byte strings, signed integers, and exceptions
--   as values. A method that can throw returns its result or the exception, and the object as it
--   leaves it.
-- Job: include/runnerd/job.h and src/job.cpp. jobStateName, isTerminal, canTransition,
--   validateJobSpec and transitionJob. Job/Lifecycle states the machine of docs/state_machine.md.
-- Scheduler: include/runnerd/job_scheduler.h and src/job_scheduler.cpp, all methods. The deque and
--   the hash sets are lists. Scheduler/Spec is the abstract scheduler that it refines.
-- Protocol: include/runnerd/protocol.h and src/protocol.cpp. Protocol/Submit and Protocol/JobIds are
--   the requests, Protocol/Frames the frames and the FrameDecoder. Protocol/Submit/Packet describes
--   the layout of a SUBMIT request on its own.
-- Timeouts: include/runnerd/timeout_manager.h and src/timeout_manager.cpp. Times are nanoseconds.
--   The priority queue is a list in the order in which it is popped; the readings of the clock and
--   the outcomes of read and timerfd_settime are arguments; `timer` is what the timerfd waits for.
-- Numbers: the digit loop that the four number parsers of src/runnerctl_main.cpp and
--   src/runnerd_main.cpp share, and std::to_string.
-- Monitor: include/runnerd/process_monitor.h and src/process_monitor.cpp. Monitor/Pipes is
--   drainProcessFd and closeTrackedFd, Monitor/Settle tryFinalizeJob, Monitor/Signals
--   requestTerminate and forceKill, Monitor/Start startJob, Monitor/Events the handlers of events.
--   What read, waitpid, kill, epoll_ctl and launchProcess return are arguments; `effects` lists the
--   calls of close, kill and waitpid that the monitor makes. The job table, to which the monitor
--   refers, and the daemon's queue of notifications stand in its record. strerror is a parameter.
--   Monitor/Invariant holds what the containers agree on and that the operations keep it.
-- Launcher: src/process_launcher.cpp and setNonBlocking of src/fd_utils.cpp. launchProcess in the
--   parent, over what its system calls return; the closes, kills and waits are listed in order. The
--   wait for a killed child is one entry, whatever signals interrupt it. Launcher/Child is the failure
--   that the child reports, over its system calls, and the record it writes.
-- Client: src/runnerctl_main.cpp. The command line, the request, writeAll and readFrame over the
--   outcomes of their system calls, and what is made of the response.
-- Daemon: src/runnerd_main.cpp. The options, the responses to STATUS and LIST, and the bytes that
--   wait in a connection. Daemon/Jobs is scheduleForceKillDeadline, pumpScheduler and
--   processTerminalJobNotifications, Daemon/Requests cancelJob and handleRequest, Daemon/Serving
--   handleClientRead, Daemon/DeadlineEvents handleDeadlineEvent and two branches of the loop of main.
-- Tests: runs at concrete inputs.
--
-- Bounds and fuel: bytes are numbers below 256, and words keep their wrap-around (% 2 ^ 32, % 2 ^ 64).
-- The loop of handleReadable runs on the size of the heap as fuel, since each round pops an entry;
-- the theorems about it hold for that fuel. std::to_string runs on twenty digits, enough for 64 bits.
-- Times do not overflow: the clock is below 2^63 nanoseconds less the longest timeout.
-- pumpScheduler runs on one more than the length of the queue, since each round takes a job from it,
-- processTerminalJobNotifications on the number of notifications, to which no round adds, and the
-- loop over a client's frames on the size of the buffer. The startup error record is written and read
-- with the lowest byte first.
--
-- Not modelled: what the child closes and duplicates in launchProcess, the sockets, epoll, the branch
-- of the event loop for a client and its set-up; the constructors and destructors of the monitor and
-- the timeout manager; failed allocations; values of an enum outside its constants; log output.
pub mod Prelude
pub mod Job
pub mod Scheduler
pub mod Protocol
pub mod Timeouts
pub mod Numbers
pub mod Monitor
pub mod Launcher
pub mod Client
pub mod Daemon
pub mod Tests
