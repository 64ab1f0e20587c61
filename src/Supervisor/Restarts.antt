-- ===== src/Supervisor/Restarts.antt =====
-- What becomes of a process that exits by itself.
use sandobox_cpp.Base.{
  ◌≡◌, ◌≢◌, refl, ◌<◌, ◌+◌, ℕ, ℤ, negsuc, Bytes, [], ◌∷◌, ◌++◌, none, Option, ap, ◌∙◌, Bool, true,
  false, if◌then◌else◌, lookup, insert, lookup-insert, bytes_eq_refl, some, arith, lt→ltb, text,
  decimal, ◌==◌,
}
use sandobox_cpp.Supervisor.Types.{
  Supervisor, ProcessEntry, Status, EventType, running, restarting, looping, returned, sigkill,
}
use sandobox_cpp.Supervisor.Act.{Act, Outcome, returns, terminated, the_entry, emit_event}
use sandobox_cpp.Supervisor.Process.{
  monitor_of, forks, Round, may_restart, join_monitor, spawn_process, restart_or_fail, handle_exit,
  monitor_round, wexitstatus, timed_out, after_wait, thread_returns,
}
use sandobox_cpp.Supervisor.Watchdog.{Reaped, has_pid, watch}

either :
    (b : Bool) (x s : Supervisor)
    → x.processes ≡ s.processes
    → (u : Supervisor) × (◌≡◌ {A = Outcome (Unit {0})}
        (if b then returns tt x else returns tt s)
        (returns tt u))
      × (u.processes ≡ s.processes)
either true x s e = (x, refl, e)
either false x s e = (s, refl, refl)

-- emit_event returns, and changes at most the list of emitted events.
pub emit_event_returns :
    (now : ℕ) (type : EventType) (name : Bytes) (pid : ℤ) (code : ℕ) (msg : Bytes) (s : Supervisor)
    → (u : Supervisor) × (emit_event now type name pid code msg s ≡ returns tt u)
      × (u.processes ≡ s.processes)
unfolding emit_event
emit_event_returns now type name pid code msg s = either s.has_callback _ s refl

-- A monitor thread that starts its process anew joins itself.
spawn_by_own_monitor :
    (pid now : ℕ) (name : Bytes) (s : Supervisor) (e : ProcessEntry)
    → lookup name s.processes ≡ some e
    → e.monitor ≡ looping
    → spawn_process (monitor_of name) (forks pid now) name s ≡ terminated
unfolding spawn_process
spawn_by_own_monitor pid now name s e found own =
    rw (found, the_entry) (rw (own, join_monitor) (rw (bytes_eq_refl name)))

restart_by_own_monitor :
    (pid now t : ℕ) (name : Bytes) (s : Supervisor) (e : ProcessEntry)
    → e.state.restart_count < e.config.max_restarts
    → e.monitor ≡ looping
    → restart_or_fail (monitor_of name) (forks pid now) t name e s ≡ terminated
unfolding restart_or_fail
restart_by_own_monitor pid now t name s e left own =
    let again : ProcessEntry = record e {
      state = record e.state { status = restarting; restart_count = e.state.restart_count + 1 };
    } in
    let s₁ : Supervisor = record s { processes = insert name again s.processes } in
    let (u, emitted, same) =
      emit_event_returns t EventType.restarted name (negsuc 0) 0
        (text "Restart attempt " ++ decimal (e.state.restart_count + 1)) s₁ in
    rw (lt→ltb _ _ left) (
      rw (emitted) (
        rw (
          spawn_by_own_monitor pid now name u again (rw (same, lookup-insert, bytes_eq_refl)) own)))

-- A round of the monitor thread that finds its process ended with a code that is not 0, while restarts
-- are allowed and left and fork succeeds, joins its own thread: the exception ends the whole daemon.
pub crash_terminates_daemon :
    (round : Round) (name : Bytes) (s : Supervisor) (e : ProcessEntry) (status pid now : ℕ)
    → lookup name s.processes ≡ some e
    → e.running ≡ true
    → e.monitor ≡ looping
    → round.exited ≡ some status
    → wexitstatus status ≢ 0
    → may_restart e.config.restart_policy ≡ true
    → e.state.restart_count < e.config.max_restarts
    → round.fork ≡ forks pid now
    → monitor_round round name s ≡ terminated
unfolding monitor_round handle_exit
crash_terminates_daemon round name s e status pid now found up own exit crash policy left fork =
    let code = wexitstatus status in
    let exited : ProcessEntry = record e {
      running = false;
      state = record e.state { exit_code = code; status = Status.stopped };
    } in
    let s₁ : Supervisor = record s { processes = insert name exited s.processes } in
    let bad : (code == 0) ≡ false = ground arith in
    let (u, emitted, same) =
      emit_event_returns round.now EventType.crashed name e.state.pid code [] s₁ in
    rw (found, the_entry)
      (rw (up, exit)
        (rw (found, the_entry)
          (rw (bad, policy, emitted, fork)
            (rw (restart_by_own_monitor pid now round.now name u exited left own)))))

-- A RUNNING process with a pid that the watchdog finds ended counts as a success, whatever its exit
-- status is: it is STOPPED with exit code 0, and it is not restarted.
pub watch_reads_success :
    (reaped : Reaped) (name : Bytes) (s : Supervisor) (e : ProcessEntry) (status : ℕ)
    → lookup name s.processes ≡ some e
    → e.state.status ≡ running
    → has_pid e.state.pid ≡ true
    → reaped.exited ≡ some status
    → (t : Supervisor) × (watch reaped name s ≡ returns tt t)
      × (lookup name t.processes
          ≡ some (record e {
            running = false;
            state = record e.state { exit_code = 0; status = Status.stopped };
          }))
unfolding watch handle_exit
watch_reads_success reaped name s e status found up pid exit =
    let ended : ProcessEntry = record e {
      running = false;
      state = record e.state { exit_code = 0; status = Status.stopped };
    } in
    let s₁ : Supervisor = record s { processes = insert name ended s.processes } in
    let zero_code : wexitstatus (wexitstatus status) ≡ 0 = omega arith in
    let (u, emitted, same) =
      emit_event_returns reaped.now EventType.stopped name e.state.pid 0 [] s₁ in
    (
      u,
      rw (found, the_entry)
          (rw (up, pid, exit) (rw (found, the_entry) (rw (zero_code) (rw emitted)))),
      rw (same, lookup-insert, bytes_eq_refl),
    )

chosen : {A : Type 0} (b : Bool) (x y : A) → b ≡ true → (if b then x else y) ≡ x
chosen b x y e = rw e refl

live_round :
    (round : Round) (name : Bytes) (s : Supervisor) (e : ProcessEntry)
    → lookup name s.processes ≡ some e
    → e.running ≡ true
    → monitor_round round name s ≡ after_wait round name e round.exited s
unfolding monitor_round
live_round round name s e found up =
    rw (found, the_entry)
      (ap (λ (m : Act (Unit {0})). m s)
        (chosen e.running (after_wait round name e round.exited) (thread_returns name) up))

late_round :
    (round : Round) (name : Bytes) (s : Supervisor) (e : ProcessEntry)
    → lookup name s.processes ≡ some e
    → timed_out round.now e ≡ true
    → after_wait round name e none s
      ≡ returns tt (record s {
        processes = insert name (record e { monitor = returned }) s.processes;
        signals = s.signals ++ (e.state.pid, sigkill) ∷ [];
      })
unfolding after_wait
late_round round name s e found late = rw late (rw (found, the_entry) refl)

-- A round of the monitor thread that finds its process still there after its timeout sends SIGKILL and
-- is the last one: the thread returns without waiting for the process, whose status stays as it was.
timeout_keeps_status :
    (round : Round) (name : Bytes) (s : Supervisor) (e : ProcessEntry)
    → lookup name s.processes ≡ some e
    → e.running ≡ true
    → round.exited ≡ none
    → timed_out round.now e ≡ true
    → (t : Supervisor) × (monitor_round round name s ≡ returns tt t)
      × (t.signals ≡ s.signals ++ (e.state.pid, sigkill) ∷ [])
      × (lookup name t.processes ≡ some (record e { monitor = returned }))
timeout_keeps_status round name s e found up still late =
    let waited = ap (λ (x : Option ℕ). after_wait round name e x s) still in
    (
      record s {
        processes = insert name (record e { monitor = returned }) s.processes;
        signals = s.signals ++ (e.state.pid, sigkill) ∷ [];
      },
      live_round round name s e found up ∙ (waited ∙ late_round round name s e found late),
      refl,
      rw (lookup-insert, bytes_eq_refl) refl,
    )
