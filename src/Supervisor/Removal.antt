-- ===== src/Supervisor/Removal.antt =====
-- Starting, stopping and removing one process.
use sandobox_cpp.Base.{
  ◌≡◌, ◌≢◌, refl, ℕ, pos, Bytes, [], true, false, not, ◌&&◌, if◌then◌else◌, is_some, lookup, insert,
  lookup-insert, bytes_eq, some, Bool-cases, inl, inr, arith,
}
use sandobox_cpp.Supervisor.Types.{
  Supervisor, ProcessEntry, ProcessConfig, EventType, running, Monitor, absent, looping, returned,
}
use sandobox_cpp.Supervisor.Act.{returns, blocked, terminated, the_entry, with_lock, unlocked}
use sandobox_cpp.Supervisor.Process.{client, forks, join_monitor}
use sandobox_cpp.Supervisor.Control.{
  is_running, fresh_entry, add_locked, add_process, start_locked, start, erase_entry, remove_locked,
  Wait, remove_process,
}
use sandobox_cpp.Supervisor.Restarts.{emit_event_returns}

erase_started :
    (name : Bytes) (m : Monitor) (s : Supervisor)
    → m ≢ absent
    → unlocked (erase_entry name m s) ≡ terminated
unfolding erase_entry
erase_started name absent s started = elim (started refl) [ ]
erase_started name looping s started = refl
erase_started name returned s started = refl

-- Where the mutex is free, remove_process does not return for a process that has been given a monitor
-- thread: for a running one it waits for the mutex that it holds itself, for any other it destroys a
-- joinable thread and ends the daemon.
pub remove_process_started :
    (wait : Wait) (name : Bytes) (s : Supervisor) (e : ProcessEntry)
    → s.locked ≡ false
    → lookup name s.processes ≡ some e
    → e.monitor ≢ absent
    → remove_process wait name s ≡ (if is_running e.state.status then blocked else terminated)
unfolding remove_process
remove_process_started wait name s e free found started =
    rw (free, with_lock)
      (rw (found, remove_locked)
        (elim (Bool-cases (is_running e.state.status)) [
          | inl up ↦ rw up refl
          | inr down ↦ rw down (erase_started name e.monitor (record s { locked = true }) started)
        ]))

-- Where the mutex is free, add_process takes a name once: it returns true exactly if the name is new, and then the process is
-- there, STOPPED; otherwise, and for all other names, nothing changes.
add_process_lem :
    (config : ProcessConfig) (s : Supervisor)
    → s.locked ≡ false
    → (t : Supervisor) × (add_process config s
        ≡ returns (not (is_some (lookup config.name s.processes))) t)
      × ((j : Bytes)
          → lookup j t.processes ≡ (
              if bytes_eq config.name j && not (is_some (lookup config.name s.processes))
              then some (fresh_entry config)
              else lookup j s.processes))
unfolding add_process
add_process_lem config s free = elim (Bool-cases (is_some (lookup config.name s.processes))) [
  | inl taken ↦ (
    record s { locked = false },
    rw (free, with_lock) (rw (taken, add_locked) refl),
    λ j. rw taken (ground arith),
  )
  | inr new ↦ (
    record s { locked = false; processes = insert config.name (fresh_entry config) s.processes },
    rw (free, with_lock) (rw (new, add_locked) refl),
    λ j. rw (new, lookup-insert) (ground arith),
  )
]

join_quiet :
    (name : Bytes) (m : Monitor) (s : Supervisor)
    → m ≢ looping
    → join_monitor client name m s ≡ returns tt s
unfolding join_monitor
join_quiet name absent s quiet = refl
join_quiet name looping s quiet = elim (quiet refl) [ ]
join_quiet name returned s quiet = refl

-- Where the mutex is free and fork succeeds, start of a process that is there, is not RUNNING and whose
-- monitor thread is not in its loop returns true: the process is RUNNING under the child's pid, with a
-- monitor thread in its loop and a restart count of 0, and every other process is as it was.
start_runs :
    (pid now : ℕ) (name : Bytes) (s : Supervisor) (e : ProcessEntry)
    → s.locked ≡ false
    → lookup name s.processes ≡ some e
    → is_running e.state.status ≡ false
    → e.monitor ≢ looping
    → (t : Supervisor) × (start (forks pid now) name s ≡ returns true t)
      × ((j : Bytes)
          → lookup j t.processes ≡ (
              if bytes_eq name j
              then some (record e {
                state = record e.state {
                  status = running;
                  pid = pos pid;
                  start_time = now;
                  restart_count = 0;
                };
                running = true;
                monitor = looping;
              })
              else lookup j s.processes))
unfolding start
start_runs pid now name s e free found idle quiet =
    let spawned : ProcessEntry = record e {
      state = record e.state {
        status = running;
        pid = pos pid;
        start_time = now;
        restart_count = 0;
      };
      running = true;
    } in
    let s₁ : Supervisor = record s { locked = true; processes = insert name spawned s.processes } in
    let s₂ : Supervisor = record s₁ {
      processes = insert name (record spawned { monitor = looping }) s₁.processes;
    } in
    let (u, emitted, same) = emit_event_returns now EventType.started name (pos pid) 0 [] s₂ in
    (
      record u { locked = false },
      rw (free, with_lock)
          (rw (found, start_locked)
            (rw idle
              (rw (found, the_entry) (rw (join_quiet name e.monitor s₁ quiet) (rw emitted refl))))),
      λ j. rw (same, lookup-insert, lookup-insert) (ground arith),
    )
