-- ===== src/Supervisor/Tests.antt =====
-- The theorems on the supervisor at concrete inputs.
use sandobox_cpp.Base.{
  c_string, ◌≡◌, refl, pos, Bytes, List, [], ◌∷◌, ◌++◌, true, false, if◌then◌else◌, none, some,
  text, lookup, bytes_eq, arith, insert, ◌+◌, ◌/◌, ◌≤◌, ◌⊎◌,
}
use sandobox_cpp.Supervisor.Types.{
  Supervisor, initial, ProcessConfig, ProcessEntry, initial_state, on_failure, running, stopped,
  looping, returned,
}
use sandobox_cpp.Supervisor.Act.{returns, blocked, terminated}
use sandobox_cpp.Supervisor.Process.{forks, Round, monitor_round}
use sandobox_cpp.Supervisor.Control.{fresh_entry, remove_process}
use sandobox_cpp.Supervisor.Watchdog.{Reaped, watch}
use sandobox_cpp.Supervisor.Invariant.{AllSound}
use sandobox_cpp.Supervisor.Reach.{
  Call, adds, starts, monitors, stops, restarts, perform, run, run-AllSound,
}
use sandobox_cpp.Supervisor.Restarts.{crash_terminates_daemon, watch_reads_success}
use sandobox_cpp.Supervisor.Shutdown.{destroy_terminates}
use sandobox_cpp.Supervisor.Stops.{left_as, stop_signals}
use sandobox_cpp.Supervisor.Control.{
  add_process, start, restart, stop, overdue, Wait, Meanwhile, finds,
}
use sandobox_cpp.Supervisor.Watchdog.{destroy}
use sandobox_cpp.Supervisor.Types.{sigterm, sigkill}
use sandobox_cpp.Supervisor.Removal.{remove_process_started}
use sandobox_cpp.Supervisor.Race.{
  signalling, ended, testing, gone, Race, put_entry, signalled, terminates, polls, forces, marks,
  quits, Run, here, and_then,
}
use sandobox_cpp.Supervisor.Race.Forced.{stop_forces}
use sandobox_cpp.Supervisor.Race.Ends.{stop_steps, CanStep, stop_ends}
use sandobox_cpp.Supervisor.Child.{
  Process, ChildAnswers, runs, run_child, variables, either, child_starts,
}

abbrev web : Bytes
web = text "web"

abbrev web_config : ProcessConfig
web_config = record {
  name = web;
  command = text "serve";
  args = [];
  working_dir = [];
  environment = [];
  restart_policy = on_failure;
  max_restarts = 3;
  restart_delay_ms = 0;
  memory_limit_bytes = 0;
  cpu_percent = 0;
  timeout_seconds = 0;
  enable_health_check = false;
  health_check_interval_ms = 0;
  health_check_command = [];
}

abbrev idle_entry : ProcessEntry
idle_entry = fresh_entry web_config

abbrev live_entry : ProcessEntry
live_entry = record idle_entry {
  state = record initial_state { status = running; pid = pos 7; start_time = 100 };
  monitor = looping;
  running = true;
}

abbrev idle : Supervisor
idle = record initial { processes = (web, idle_entry) ∷ [] }

abbrev live : Supervisor
live = record initial { processes = (web, live_entry) ∷ [] }

-- a child that exits with code 1, and then a fork that succeeds
abbrev crash : Round
crash = record { exited = some 256; now = 200; rss_kb = none; fork = forks 8 201 }

-- a child that is still there
abbrev working : Round
working = record { exited = none; now = 150; rss_kb = some 12; fork = forks 8 201 }

-- A wait that is above its timeout of 5 seconds, and one that sees the process end.
abbrev unseen : Wait
unseen = record { elapsed = 10 ∷ 5001 ∷ []; meanwhile = Meanwhile.quits }

abbrev seen : Wait
seen = record { elapsed = 10 ∷ 20 ∷ []; meanwhile = finds 15 200 (forks 8 201) }

abbrev crash_seen : Reaped
crash_seen = record { exited = some 256; now = 200; fork = forks 8 201 }

idle_found : lookup web idle.processes ≡ some idle_entry
unfolding lookup bytes_eq
idle_found = refl

live_found : lookup web live.processes ≡ some live_entry
unfolding lookup bytes_eq
live_found = refl

abbrev worked_calls : List Call
worked_calls =
    adds web_config
    ∷ starts (forks 7 100) web
    ∷ monitors working web
    ∷ stops 5000 seen web
    ∷ restarts seen (forks 9 300) web
    ∷ []

abbrev worked : Supervisor
unfolding run perform lookup insert bytes_eq
worked = elim (run worked_calls initial) [
  | returns _ s ↦ s
  | blocked ↦ initial
  | terminated ↦ initial
]

run-AllSound_example : AllSound worked.processes
unfolding worked add_process start monitor_round stop restart
run-AllSound_example = run-AllSound worked_calls worked refl

crash_terminates_daemon_example : monitor_round crash web live ≡ terminated
crash_terminates_daemon_example =
    crash_terminates_daemon crash web live live_entry 256 8 201 live_found refl refl refl
      (omega arith) refl (omega arith) refl

watch_reads_success_example :
    (t : Supervisor) × (watch crash_seen web live ≡ returns tt t)
    × (lookup web t.processes
        ≡ some (record live_entry {
          running = false;
          state = record live_entry.state { exit_code = 0; status = stopped };
        }))
watch_reads_success_example =
    watch_reads_success crash_seen web live live_entry 256 live_found refl refl refl

remove_process_started_example : remove_process unseen web live ≡ blocked
remove_process_started_example =
    remove_process_started unseen web live live_entry refl live_found (λ e. cc)

stop_signals_example :
    (t : Supervisor) × (stop 5000 seen web live ≡ returns true t)
    × (t.signals
        ≡ []
          ++ (pos 7, sigterm) ∷ (if overdue 5000 (10 ∷ 20 ∷ []) then (pos 7, sigkill) ∷ [] else []))
    × ((j : Bytes)
        → lookup j t.processes ≡ (
            if bytes_eq web j
            then some (left_as seen.meanwhile live_entry)
            else lookup j live.processes))
stop_signals_example = stop_signals 5000 seen web live live_entry refl live_found refl refl

destroy_terminates_example : destroy live ≡ terminated
destroy_terminates_example = destroy_terminates web live live_entry refl live_found (λ e. cc)

-- stop has cleared `running`, and the monitor thread is before its test.
abbrev cleared_entry : ProcessEntry
cleared_entry = record live_entry { running = false }

abbrev cleared : Supervisor
cleared = record live { processes = (web, cleared_entry) ∷ [] }

abbrev quit_entry : ProcessEntry
quit_entry = record cleared_entry { monitor = returned }

abbrev quit : Supervisor
quit = put_entry web quit_entry (signalled cleared_entry sigterm cleared)

abbrev over : Race
over = record {
  sup =
      put_entry web (record quit_entry { state = record quit_entry.state { status = stopped } })
        (signalled quit_entry sigkill quit);
  stop_at = ended;
  monitor_at = gone;
}

abbrev outlasted :
    Run web 5 (record { sup = cleared; stop_at = signalling; monitor_at = testing }) over
unfolding lookup insert bytes_eq
outlasted = and_then (terminates {e = cleared_entry} {elapsed = 0} refl) (
    and_then (polls {e = cleared_entry} {next = 10} refl refl refl (omega arith)) (
      and_then (quits {e = cleared_entry} refl refl) (
        and_then (forces {e = quit_entry} {elapsed = 10} refl refl refl)
          (and_then (marks {e = quit_entry} refl) here))))

stop_forces_example :
    (e : ProcessEntry) × (lookup web over.sup.processes ≡ some e)
    × (e.state.status ≡ stopped)
    × (e.state.exit_code ≡ cleared_entry.state.exit_code)
    × (over.sup.signals ≡ [] ++ (pos 7, sigterm) ∷ (pos 7, sigkill) ∷ [])
    × (over.sup.emitted ≡ [])
unfolding lookup bytes_eq
stop_forces_example =
    stop_forces web 5 cleared cleared_entry testing over refl refl refl tt outlasted refl

stop_ends_example :
    (stop_steps web 5 outlasted ≤ 5 / 10 + 4) × ((over.stop_at ≡ ended) ⊎ CanStep web 5 over)
unfolding lookup bytes_eq
stop_ends_example = stop_ends web 5 cleared cleared_entry testing over refl outlasted

abbrev told_config : ProcessConfig
told_config = record web_config {
  environment = (text "PORT", text "80") ∷ (text "HOME", text "web") ∷ [];
  working_dir = text "tmp";
  memory_limit_bytes = 4096;
}

abbrev parent : Process
parent = record {
  directory = text "root";
  environment = (text "HOME", text "root") ∷ (text "PATH", text "bin") ∷ [];
  memory_limit = 1000000;
  process_limit = 100;
}

abbrev obeyed : ChildAnswers
obeyed = record {
  changes_dir = true;
  sets = λ key. true;
  limits_memory = true;
  limits_processes = false;
  replaces = true;
}

child_starts_example :
    (q : Process) × (run_child obeyed told_config parent
      ≡ runs (text "serve") (text "serve" ∷ []) q)
    × ((j : Bytes)
        → lookup j q.environment
          ≡ either
              (lookup j (variables obeyed told_config.environment))
              (lookup j parent.environment))
    × (q.memory_limit ≡ 4096)
    × (q.process_limit ≡ 100)
    × (q.directory ≡ text "tmp")
unfolding variables c_string lookup bytes_eq
child_starts_example = child_starts obeyed told_config parent refl (refl, (refl, tt))
