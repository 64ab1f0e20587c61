-- ===== src/Supervisor/Control.antt =====
-- The public operations of ProcessSupervisor: start, stop and the others.
use sandobox_cpp.Base.{
  ◌++◌, ℕ, ℤ, ◌+◌, ◌-◌, ◌%◌, ◌^◌, Bytes, List, [], ◌∷◌, Bool, true, false, Option, none, some,
  is_some, not, ◌||◌, if◌then◌else◌, lookup, insert, erase, ltb, map, Assoc,
}
use sandobox_cpp.Supervisor.Types.{
  ProcessEntry, ProcessState, ProcessConfig, initial_state, Signal, sigterm, sigkill, Status,
  Monitor, absent, looping, returned, running, stopped,
}
use sandobox_cpp.Supervisor.Act.{
  returns, blocked, terminated, Act, the_entry, ◌>>=◌, ◌>>◌, then_do, pure, modify, store, kill,
  with_lock,
}
use sandobox_cpp.Supervisor.Process.{
  client, monitor_of, Fork, spawn_process, handle_exit, thread_returns,
}

abbrev pub is_running : Status → Bool
is_running running = true
is_running _ = false

abbrev pub fresh_entry : ProcessConfig → ProcessEntry
fresh_entry config = record {
  config = config;
  state = initial_state;
  monitor = absent;
  running = false;
  logs = [];
}

-- The body of each call, under the lock, is a definition of its own.
unfoldable pub add_locked : ProcessConfig → Act Bool
add_locked config s =
    if is_some (lookup config.name s.processes)
    then returns false s
    else returns true (record s { processes = insert config.name (fresh_entry config) s.processes })

unfoldable pub add_process : ProcessConfig → Act Bool
unfolding with_lock add_locked
add_process config = with_lock (add_locked config)

unfoldable pub start_locked : Fork → Bytes → Act Bool
unfolding spawn_process
start_locked fork name s = elim (lookup name s.processes) [
  | none ↦ returns false s
  | some entry ↦
      if is_running entry.state.status then returns false s else spawn_process client fork name s
]

unfoldable pub start : Fork → Bytes → Act Bool
unfolding with_lock start_locked
start fork name = with_lock (start_locked fork name)

-- What the monitor thread does while stop waits: nothing; its test of `running`, and the end; or, where
-- it is behind that test, what follows the exit that its waitpid finds.
pub data Meanwhile : Type 0 where
  sleeps quits : Meanwhile
  finds : (status now : ℕ) → Fork → Meanwhile

-- The times elapsed that stop reads while the process is RUNNING.
pub record Wait : Type 0 where
  pub elapsed : List ℕ
  pub meanwhile : Meanwhile

-- Whether one of the times is above the timeout.
unfoldable pub overdue : ℕ → List ℕ → Bool
overdue timeout_ms [] = false
overdue timeout_ms (elapsed ∷ polls) =
    if ltb timeout_ms elapsed then true else overdue timeout_ms polls

abbrev pub kill_if : Bool → ℤ → Act (Unit {0})
kill_if true pid = kill pid sigkill
kill_if false pid = pure tt

unfoldable pub monitor_acts : Bytes → Meanwhile → Act (Unit {0})
unfolding handle_exit
monitor_acts name sleeps = pure tt
monitor_acts name quits = thread_returns name
monitor_acts name (finds status now fork) = do
  handle_exit (monitor_of name) fork now name status
  thread_returns name

-- Behind the wait. One that neither is overdue nor sees the process end goes on for good.
unfoldable pub mark_stopped : Bool → Bytes → ProcessEntry → Act Bool
mark_stopped late name entry s =
    if late || not (is_running entry.state.status)
    then returns true (record s {
      processes =
          insert name (record entry { state = record entry.state { status = stopped } })
            s.processes;
    })
    else blocked

unfoldable pub stop_entry : ℕ → Wait → Bytes → ProcessEntry → Act Bool
unfolding overdue monitor_acts the_entry mark_stopped
stop_entry timeout_ms wait name entry = do
  store name (record entry { running = false })
  kill entry.state.pid sigterm
  kill_if (overdue timeout_ms wait.elapsed) entry.state.pid
  monitor_acts name wait.meanwhile
  now ← the_entry name
  mark_stopped (overdue timeout_ms wait.elapsed) name now

unfoldable pub stop_locked : ℕ → Wait → Bytes → Act Bool
unfolding stop_entry
stop_locked timeout_ms wait name s = elim (lookup name s.processes) [
  | none ↦ returns false s
  | some entry ↦
      if is_running entry.state.status
      then stop_entry timeout_ms wait name entry s
      else returns false s
]

unfoldable pub stop : ℕ → Wait → Bytes → Act Bool
unfolding with_lock stop_locked
stop timeout_ms wait name = with_lock (stop_locked timeout_ms wait name)

-- processes_.erase(it): the entry's std::thread is destroyed, which ends the daemon if it is joinable.
unfoldable pub erase_entry : Bytes → Monitor → Act Bool
erase_entry name absent s = returns true (record s { processes = erase name s.processes })
erase_entry name looping s = terminated
erase_entry name returned s = terminated

unfoldable pub remove_locked : Wait → Bytes → Act Bool
unfolding stop erase_entry
remove_locked wait name s = elim (lookup name s.processes) [
  | none ↦ returns false s
  | some entry ↦
      then_do (if is_running entry.state.status then stop 5000 wait name s else returns true s)
        (λ _. erase_entry name entry.monitor)
]

unfoldable pub remove_process : Wait → Bytes → Act Bool
unfolding with_lock remove_locked
remove_process wait name = with_lock (remove_locked wait name)

unfoldable pub restart : Wait → Fork → Bytes → Act Bool
unfolding start stop
restart wait fork name = do _ ← stop 5000 wait name; start fork name

-- the body of the loop of stop_all, and the loop over what is left of the map
unfoldable pub stop_one : ProcessEntry → ProcessEntry
stop_one entry = if is_running entry.state.status then record entry { running = false } else entry

abbrev pub term_signals : ProcessEntry → List (ℤ × Signal)
term_signals entry = if is_running entry.state.status then (entry.state.pid, sigterm) ∷ [] else []

unfoldable pub stop_each : Assoc ProcessEntry → Assoc ProcessEntry × List (ℤ × Signal)
unfolding stop_one
stop_each [] = ([], [])
stop_each ((name, entry) ∷ rest) =
    let (entries, signals) = stop_each rest in
    ((name, stop_one entry) ∷ entries, term_signals entry ++ signals)

unfoldable pub stop_all_locked : Act Bool
unfolding stop_each
stop_all_locked s =
    let (entries, signals) = stop_each s.processes in
    returns true (record s { processes = entries; signals = s.signals ++ signals })

unfoldable pub stop_all : Act Bool
unfolding with_lock stop_all_locked
stop_all = with_lock stop_all_locked

unfoldable pub get_state : Bytes → Act ProcessState
unfolding with_lock
get_state name = with_lock λ s. elim (lookup name s.processes) [
  | none ↦ returns initial_state s
  | some entry ↦ returns entry.state s
]

unfoldable pub get_all_states : Act (List (Bytes × ProcessState))
unfolding with_lock
get_all_states = with_lock λ s. returns (map (λ (name, entry). (name, entry.state)) s.processes) s

pub record ProcessInfo : Type 0 where
  pub name : Bytes
  pub state : ProcessState
  pub config : ProcessConfig
  pub uptime_ms : ℕ
  pub recent_logs : List Bytes

unfoldable pub info_of : ℕ → Bytes → ProcessEntry → ProcessInfo
info_of now name entry = record {
  name = name;
  state = entry.state;
  config = entry.config;
  uptime_ms =
      if ltb 0 entry.state.start_time then (now + 2 ^ 64 - entry.state.start_time) % 2 ^ 64 else 0;
  recent_logs = entry.logs;
}

unfoldable pub get_info : ℕ → Bytes → Act (Option ProcessInfo)
unfolding with_lock info_of
get_info now name = with_lock λ s. elim (lookup name s.processes) [
  | none ↦ returns none s
  | some entry ↦ returns (some (info_of now name entry)) s
]

unfoldable pub on_event : Act (Unit {0})
on_event = modify λ s. record s { has_callback = true }
