-- ===== src/Lib.antt =====
-- The job sandbox of this repository: a daemon that takes jobs from a Redis-like server over its own
-- binary protocol, runs them in sandboxed child processes, supervises long-running processes and
-- keeps their logs. This library models the parts below and proves what they promise.
--
-- Files, with the sources they model:
--   Base: shared notation, Boolean tests, lists over the native numbers, byte strings, little-endian
--     words, decimal numerals, association lists.
--   Result: sandbox/include/devops/result.hpp. A result is ok, err, or out_of_fuel, which only the
--     model has: a loop whose fuel has run out.
--   Redis: sandbox/src/redis_client.cpp and sandbox/include/devops/redis_client.hpp.
--     Redis/Response is struct Response; Redis/Parse is parse_value; Redis/Wire is the reply format
--     written as a printer, apart from the parser; Redis/RoundTrip and Redis/Sound relate the two.
--     Redis/Frame is the request that send builds, Redis/Frame/Layout its bytes written down apart from
--     the code, Redis/Frame/Decode a reader of them. Redis/Socket is write_all and read_exact over a
--     stream; Redis/Client is connect, close, send and read_frame; Redis/Client/Descriptors adds the
--     move operations; Redis/Commands is set, get, job_next and the other commands.
--   Log: sandbox/src/log_aggregator.cpp and its header. Log/Window, Log/Search and Log/Lines hold the
--     proofs on the bound, the searches and the prefixes of raw lines.
--   Supervisor: sandbox/src/process_supervisor.cpp and its header. Supervisor/Types holds the data,
--     Supervisor/Act the calls as functions of the supervisor, Supervisor/Process is spawn_process,
--     handle_exit and a round of monitor_process, Supervisor/Child what the child does up to execvp,
--     Supervisor/Control the public operations, Supervisor/Watchdog the watchdog and the destructor.
--     Supervisor/Invariant, Keeps, Rounds and Reach carry the invariant; Restarts, Removal, Stops and
--     Shutdown the behaviour of single calls.
--     Supervisor/Race is stop against the monitor thread of its process, step by step; Race/Forced says
--     how its wait ends, and Race/Ends that it does.
--   Resource: sandbox/src/resource_monitor.cpp and its header. Resource/Scan is operator>> of an input
--     stream on the lines of /proc, Resource read_usage and the other operations of ResourceMonitor,
--     Resource/Loop check_alerts and monitor_loop, Resource/Manager class ResourceManager.
--     Resource/Readings, History, Alerts and Alerts/Raised hold the proofs on the monitor; Manager/Totals
--     and Unordered those on the manager's sums, Manager/Reports on its reports, and Manager/Entries on
--     its map. Manager/Steps is any calls and rounds in turn, and Manager/Watch what they keep.
--   Health: sandbox/src/health_monitor.cpp and its header.
--   Metrics: sandbox/src/metrics.cpp and its header. Metrics/Types holds the data, Metrics the exporter,
--     Metrics/Server the HTTP endpoint; Metrics/Order is the order of std::string. The bytes that
--     handle_client gives to send are modelled, and not how many of them send takes.
--   Sandbox: sandbox/src/sandbox.cpp and its header. Sandbox is run, Sandbox/Reading its read loop,
--     Sandbox/Child what the child does. Sandbox/Smoke is docker/scripts/sandbox_smoke.cpp and
--     cross_stub_main.cpp of the sandbox directory, with the stub that the latter calls. Releases,
--     Output, Delivery, Verdict, Confined and Alike hold the proofs.
--   Seccomp: sandbox/src/seccomp.cpp, which the program does not call.
--   Options: parse_num and parse_args of sandbox/src/main.cpp. Options/Given says what was given,
--     apart from the code, and Options/Loop relates the two.
--   Jobs: the job loop of main in sandbox/src/main.cpp, over Jobs/Calls, which is what it uses of its
--     client and which Redis/Commands fills. Jobs/Round and Jobs/Trace hold a round, Jobs/Balance the loop,
--     Jobs/Requests that the program's client answers the commands of a job. Jobs/Follows and
--     Follows/Rounds compare the loop over two clients, on Sandbox/Alike, which compares two callers of
--     run; Jobs/Protocol applies that to the program's client and a list of replies.
--   Daemon: main itself. Daemon/Callbacks are the functions that it hands to its parts.
--   Each part has its tests in a module Tests.
--
-- How the state is modelled. A client is its descriptor, the descriptors it owns, and the state of the
-- stream. The stream is a parameter (Redis.Socket.Stream): recv and send answer as their manual pages
-- say, a positive count of at most what was asked for, nothing, or an error. The position in a reply is
-- the list of bytes that are left. A log is the deque as a list, oldest entry first. A supervisor is
-- its map of entries, whether its mutex is held, and what it has emitted and signalled; a call
-- returns, is blocked (it waits for a mutex that its thread holds, for a monitor thread, or for a process
-- that does not end while its timeout is not over, and is not followed any further), or has ended the
-- daemon. What the operating system answers (fork, waitpid, the clock, /proc) is an argument of each
-- call.
--
-- A sandbox is its members; what the process holds is a ledger of descriptors, blocks and children, and
-- the pipe is a parameter (Sandbox.Reading.Pipe), as a stream is. The job loop has the state of its
-- client, the log, the exporter, its counts and that ledger; its rounds come with the answers of the
-- operating system. `tapped` is a client that keeps the commands it is sent, to state what they are.
--
-- Fuel. write_all, read_exact and the read loop of run get one more unit than there are bytes, since
-- each round moves a byte at least; parse_value gets one more than the body has bytes, which is at least
-- its depth of nesting.
--
-- A resource manager is its map, whether it has a global callback, what that was called with, and the
-- monitors that the map has let go of. A manager's client that keeps the pointer of get_monitor is a
-- Boolean where it matters: such a monitor is not destroyed.
--
-- Not modelled. Memory that runs out, and the depth of the stack. A command that never ends or never
-- closes its output: run has no timeout and waits for it, and the pipe of the model ends. SIGPIPE: a send
-- to a peer that has closed raises it, as send is called without flags and nothing handles the signal; in
-- the model such a send is an error that is returned. Data races: each call, each round
-- of a monitor thread and of the watchdog is one step, except in Supervisor/Race, where stop and the
-- monitor thread take turns, and what a round does behind its test of `running` is one step;
-- elsewhere the times that the wait of stop reads, and what that thread does in it, are an argument.
-- In the job loop the threads of the health monitor and the supervisor take no step. Callbacks other
-- than those of main; output to the console; sleeping; the signal handler, for which the number of
-- rounds stands. Bytes of a word are little-endian, as on the targets of the build. Doubles: a bit
-- pattern, or an argument where they are compared or printed. getopt_long and libseccomp, beyond
-- what they answer. The unit tests.
pub mod Base
pub mod Daemon
pub mod Health
pub mod Jobs
pub mod Log
pub mod Metrics
pub mod Options
pub mod Redis
pub mod Resource
pub mod Result
pub mod Sandbox
pub mod Seccomp
pub mod Supervisor
