-- ===== src/Supervisor/Process.antt =====
-- The life of one process: spawn_process, handle_exit, and a round of monitor_process. The operating
-- system's answers are arguments.
use sandobox_cpp.Base.{
  ◌++◌, ℕ, pos, negsuc, ◌+◌, ◌-◌, ◌*◌, ◌/◌, ◌%◌, ◌^◌, Bytes, [], Bool, true, false, not, ◌&&◌,
  Option, none, some, if◌then◌else◌, text, decimal, ltb, ◌==◌, bytes_eq,
}
use sandobox_cpp.Supervisor.Types.{
  ProcessEntry, ProcessState, ProcessConfig, RestartPolicy, never, EventType, sigkill, Status,
  Monitor, absent, looping, returned, running, restarting, failed,
}
use sandobox_cpp.Supervisor.Act.{
  returns, blocked, terminated, Act, ◌>>=◌, ◌>>◌, pure, store, kill, the_entry, emit_event,
}

-- The thread that makes the call.
pub data Thread : Type 0 where
  client watchdog : Thread
  monitor_of : Bytes → Thread

-- fork() and what follows it in the parent: an error with its text, or the child and the clock.
pub data Fork : Type 0 where
  fork_fails : Bytes → Fork
  forks : (pid now : ℕ) → Fork

abbrev pub wexitstatus : ℕ → ℕ
wexitstatus status = status / 256 % 256

-- if (monitor_thread.joinable()) monitor_thread.join(); A thread that joins itself gets a
-- system_error, which nothing catches. A monitor that loops does not end here: `running` has just
-- been set, so it goes on with the new child.
unfoldable pub join_monitor : Thread → Bytes → Monitor → Act (Unit {0})
join_monitor thread name absent s = returns tt s
join_monitor (monitor_of own) name looping s = if bytes_eq own name then terminated else blocked
join_monitor client name looping s = blocked
join_monitor watchdog name looping s = blocked
join_monitor thread name returned s = returns tt s

abbrev pub with_status : Status → ProcessState → ProcessState
with_status status state = record state { status = status }

-- In the parent; Supervisor/Child has what the child does.
unfoldable pub spawn_process : Thread → Fork → Bytes → Act Bool
unfolding the_entry join_monitor emit_event
spawn_process thread (fork_fails reason) name = do
  entry ← the_entry name
  store name (record entry {
    state = record entry.state { status = failed; restart_count = 0; last_error = reason };
  })
  pure false
spawn_process thread (forks pid now) name = do
  entry ← the_entry name
  let spawned = record entry {
    state = record entry.state {
      status = running;
      restart_count = 0;
      pid = pos pid;
      start_time = now;
    };
    running = true;
  }
  store name spawned
  join_monitor thread name entry.monitor
  store name (record spawned { monitor = looping })
  emit_event now EventType.started name (pos pid) 0 []
  pure true

abbrev pub may_restart : RestartPolicy → Bool
may_restart never = false
may_restart _ = true

-- The restart logic at the end of handle_exit.
unfoldable pub restart_or_fail : Thread → Fork → ℕ → Bytes → ProcessEntry → Act (Unit {0})
unfolding spawn_process
restart_or_fail thread fork now name entry =
    if ltb entry.state.restart_count entry.config.max_restarts
    then (do
      let attempt = entry.state.restart_count + 1
      store name (record entry {
        state = record entry.state { status = restarting; restart_count = attempt };
      })
      emit_event now EventType.restarted name (negsuc 0) 0
          (text "Restart attempt " ++ decimal attempt)
      _ ← spawn_process thread fork name
      pure tt)
    else store name (record entry {
      state = record entry.state {
        status = failed;
        last_error =
            text "Exceeded max restarts (" ++ (decimal entry.config.max_restarts ++ text ")");
      };
    })

unfoldable pub handle_exit : Thread → Fork → ℕ → Bytes → ℕ → Act (Unit {0})
unfolding restart_or_fail
handle_exit thread fork now name status = do
  entry ← the_entry name
  let code = wexitstatus status
  let success = code == 0
  let exited = record entry {
    running = false;
    state = record entry.state { exit_code = code; status = Status.stopped };
  }
  store name exited
  emit_event now (if success then EventType.stopped else EventType.crashed) name entry.state.pid
      code []
  if not success && may_restart entry.config.restart_policy
      then restart_or_fail thread fork now name exited
      else pure tt

-- The monitor thread of the process returns from its function.
abbrev pub thread_returns : Bytes → Act (Unit {0})
thread_returns name = do entry ← the_entry name; store name (record entry { monitor = returned })

-- What one round of monitor_process reads: an exit status from waitpid (a result above 0), the clock
-- at each place, the kilobytes on the VmRSS line, and what fork would answer.
pub record Round : Type 0 where
  pub exited : Option ℕ
  pub now : ℕ
  pub rss_kb : Option ℕ
  pub fork : Fork

-- entry->config.timeout_seconds * 1000, in 32 bits
abbrev pub timeout_ms : ProcessConfig → ℕ
timeout_ms config = config.timeout_seconds * 1000 % 2 ^ 32

-- now - start_time, in 64 bits
abbrev pub uptime : ℕ → ProcessState → ℕ
uptime now state = (now + 2 ^ 64 - state.start_time) % 2 ^ 64

abbrev pub timed_out : ℕ → ProcessEntry → Bool
timed_out now entry =
    ltb 0 entry.config.timeout_seconds && ltb (timeout_ms entry.config) (uptime now entry.state)

abbrev pub with_memory : Option ℕ → ProcessState → ProcessState
with_memory none state = state
with_memory (some kb) state = record state { memory_bytes = kb * 1024 % 2 ^ 64 }

-- What a round does with waitpid's answer: the exit, the timeout, or the memory in use.
unfoldable pub after_wait : Round → Bytes → ProcessEntry → Option ℕ → Act (Unit {0})
unfolding handle_exit
after_wait round name entry (some status) = do
  handle_exit (monitor_of name) round.fork round.now name status
  thread_returns name
after_wait round name entry none =
    if timed_out round.now entry
    then (do kill entry.state.pid sigkill; thread_returns name)
    else store name (record entry { state = with_memory round.rss_kb entry.state })

-- A round of monitor_process, and the end of the thread where the loop ends.
unfoldable pub monitor_round : Round → Bytes → Act (Unit {0})
unfolding after_wait
monitor_round round name = do
  entry ← the_entry name
  if entry.running then after_wait round name entry round.exited else thread_returns name
