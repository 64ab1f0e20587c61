-- ===== src/Supervisor/Stops.antt =====
-- stop of sandbox/src/process_supervisor.cpp on a running process.
use sandobox_cpp.Base.{
  ◌≡◌, refl, ap, ◌∙◌, sym, ℕ, ℤ, Bytes, [], ◌∷◌, ◌++◌, append_assoc, append-nil, true, false, Bool,
  if◌then◌else◌, not, ◌&&◌, ◌||◌, ◌==◌, lookup, insert, lookup-insert, bytes_eq, bytes_eq_refl,
  bytes_eq→eq, subst, some, Bool-cases, inl, inr, arith,
}
use sandobox_cpp.Supervisor.Types.{
  RestartPolicy, Supervisor, ProcessEntry, EventType, running, stopped, returned, sigterm, sigkill,
}
use sandobox_cpp.Supervisor.Act.{Outcome, returns, with_lock, the_entry, emit_event}
use sandobox_cpp.Supervisor.Process.{handle_exit, may_restart, wexitstatus}
use sandobox_cpp.Supervisor.Control.{
  is_running, overdue, kill_if, Meanwhile, sleeps, quits, finds, Wait, monitor_acts, mark_stopped,
  stop_entry, stop_locked, stop,
}

-- The wait comes to its end: above its timeout, or by an exit that the monitor thread finds and that the
-- policy does not answer with a restart. A process that a signal has ended has the exit code 0 as well.
abbrev pub Ends : Bool → RestartPolicy → Meanwhile → Type 0
Ends late policy sleeps = late ≡ true
Ends late policy quits = late ≡ true
Ends late policy (finds status now fork) =
    (wexitstatus status == 0 || not (may_restart policy)) ≡ true

-- The entry behind the wait.
abbrev waited : Meanwhile → ProcessEntry → ProcessEntry
waited sleeps e = record e { running = false }
waited quits e = record e { running = false; monitor = returned }
waited (finds status now fork) e = record e {
  running = false;
  monitor = returned;
  state = record e.state { exit_code = wexitstatus status; status = stopped };
}

-- The entry behind stop.
abbrev pub left_as : Meanwhile → ProcessEntry → ProcessEntry
left_as m e = record (waited m e) { state = record (waited m e).state { status = stopped } }

emits :
    (b : Bool) (x s : Supervisor)
    → x.processes ≡ s.processes
    → x.signals ≡ s.signals
    → (u : Supervisor) × (◌≡◌ {A = Outcome (Unit {0})}
        (if b then returns tt x else returns tt s)
        (returns tt u))
      × (u.processes ≡ s.processes)
      × (u.signals ≡ s.signals)
emits true x s e g = (x, refl, e, g)
emits false x s e g = (s, refl, refl, refl)

-- An event changes neither the entries nor the signals.
emit_event_quiet :
    (now : ℕ) (type : EventType) (name : Bytes) (pid : ℤ) (code : ℕ) (msg : Bytes) (s : Supervisor)
    → (u : Supervisor) × (emit_event now type name pid code msg s ≡ returns tt u)
      × (u.processes ≡ s.processes)
      × (u.signals ≡ s.signals)
unfolding emit_event
emit_event_quiet now type name pid code msg s = emits s.has_callback _ s refl refl

-- What the monitor does to the supervisor: the entry is e', all else is as it was.
abbrev Sets : Bytes → ProcessEntry → Supervisor → Supervisor → Type 0
Sets name e' s u =
    (u.signals ≡ s.signals)
    × ((j : Bytes)
        → lookup j u.processes ≡ (if bytes_eq name j then some e' else lookup j s.processes))

kept :
    (name j : Bytes) (e : ProcessEntry) (s : Supervisor)
    → lookup name s.processes ≡ some e
    → lookup j s.processes ≡ (if bytes_eq name j then some e else lookup j s.processes)
kept name j e s found = elim (Bool-cases (bytes_eq name j)) [
  | inl this ↦ rw this (subst (λ k. lookup k s.processes ≡ some e) (bytes_eq→eq name j this) found)
  | inr other ↦ rw other refl
]

not-both : (a b : Bool) → (a || not b) ≡ true → (not a && b) ≡ false
not-both true b h = refl
not-both false b h = ground arith

monitor_acts-Sets :
    (name : Bytes) (m : Meanwhile) (late : Bool) (s : Supervisor) (e : ProcessEntry)
    → lookup name s.processes ≡ some (record e { running = false })
    → Ends late e.config.restart_policy m
    → (u : Supervisor) × (monitor_acts name m s ≡ returns tt u) × Sets name (waited m e) s u
unfolding monitor_acts handle_exit
monitor_acts-Sets name sleeps late s e found h =
    (s, refl, (refl, λ j. kept name j (record e { running = false }) s found))
monitor_acts-Sets name quits late s e found h = (
  record s { processes = insert name (waited quits e) s.processes },
  rw (found, the_entry) refl,
  (refl, λ j. lookup-insert name j _ _),
)
monitor_acts-Sets name (finds status now fork) late s e found clean =
    let code = wexitstatus status in
    let ended : ProcessEntry = record e {
      running = false;
      state = record e.state { exit_code = code; status = stopped };
    } in
    let over : (not (code == 0) && may_restart e.config.restart_policy) ≡ false =
      not-both _ _ clean in
    let s₁ : Supervisor = record s { processes = insert name ended s.processes } in
    let (u, emitted, same, quiet) =
      emit_event_quiet now (if code == 0 then EventType.stopped else EventType.crashed) name
        e.state.pid code [] s₁ in
    let there : lookup name u.processes ≡ some ended =
      rw (same, lookup-insert, bytes_eq_refl) refl in
    (
      record u { processes = insert name (waited (finds status now fork) e) u.processes },
      rw (found, the_entry) (rw emitted (rw over (rw (there, the_entry) refl))),
      (quiet, λ j. lookup-insert name j _ u.processes ∙ rw (same, lookup-insert) (ground arith)),
    )

kill_if-returns :
    (late : Bool) (pid : ℤ) (s : Supervisor)
    → kill_if late pid s
      ≡ returns tt (record s { signals = s.signals ++ (if late then (pid, sigkill) ∷ [] else []) })
kill_if-returns true pid s = refl
kill_if-returns false pid s =
    ap (λ sent. returns tt (record s { signals = sent })) (sym (append-nil s.signals))

ended_wait :
    (late : Bool) (m : Meanwhile) (e : ProcessEntry)
    → Ends late e.config.restart_policy m
    → (late || not (is_running (waited m e).state.status)) ≡ true
ended_wait late sleeps e h = rw h refl
ended_wait late quits e h = rw h refl
ended_wait true (finds status now fork) e h = refl
ended_wait false (finds status now fork) e h = refl

-- The supervisor in the wait.
abbrev in_wait : ℕ → Wait → Bytes → ProcessEntry → Supervisor → Supervisor
in_wait timeout_ms wait name e s = record s {
  processes = insert name (record e { running = false }) s.processes;
  signals =
      (s.signals ++ (e.state.pid, sigterm) ∷ [])
      ++ (if overdue timeout_ms wait.elapsed then (e.state.pid, sigkill) ∷ [] else []);
}

stop_entry_returns :
    (timeout_ms : ℕ) (wait : Wait) (name : Bytes) (s u : Supervisor) (e x : ProcessEntry)
    → monitor_acts name wait.meanwhile (in_wait timeout_ms wait name e s) ≡ returns tt u
    → lookup name u.processes ≡ some x
    → (overdue timeout_ms wait.elapsed || not (is_running x.state.status)) ≡ true
    → stop_entry timeout_ms wait name e s
      ≡ returns true (record u {
        processes =
            insert name (record x { state = record x.state { status = stopped } }) u.processes;
      })
unfolding stop_entry
stop_entry_returns timeout_ms wait name s u e x acted there over =
    rw kill_if-returns (rw acted (rw (there, the_entry) (rw (over, mark_stopped) refl)))

-- Where the mutex is free, and the process is RUNNING, and the wait for it ends: above the timeout, or by
-- an exit that the monitor thread finds, with code 0 or under a policy that does not restart. Then stop
-- returns true. It sends SIGTERM, and SIGKILL behind it exactly if the wait is above the timeout. The
-- process is STOPPED, with the exit code of the exit where the monitor thread found it and the old one
-- else, and with its thread as the wait left it; every other process is as it was.
pub stop_signals :
    (timeout_ms : ℕ) (wait : Wait) (name : Bytes) (s : Supervisor) (e : ProcessEntry)
    → s.locked ≡ false
    → lookup name s.processes ≡ some e
    → e.state.status ≡ running
    → Ends (overdue timeout_ms wait.elapsed) e.config.restart_policy wait.meanwhile
    → (t : Supervisor) × (stop timeout_ms wait name s ≡ returns true t)
      × (t.signals
          ≡ s.signals
            ++ (e.state.pid, sigterm)
              ∷ (if overdue timeout_ms wait.elapsed then (e.state.pid, sigkill) ∷ [] else []))
      × ((j : Bytes)
          → lookup j t.processes
            ≡ (if bytes_eq name j then some (left_as wait.meanwhile e) else lookup j s.processes))
unfolding stop
stop_signals timeout_ms wait name s e free found up ends =
    let late = overdue timeout_ms wait.elapsed in
    let held : Supervisor = record s { locked = true } in
    let on : is_running e.state.status ≡ true = ap is_running up in
    let (u, acted, (quiet, entries)) =
      monitor_acts-Sets name wait.meanwhile late (in_wait timeout_ms wait name e held) e
        (rw (lookup-insert, bytes_eq_refl) refl) ends in
    let there : lookup name u.processes ≡ some (waited wait.meanwhile e) =
      entries name ∙ rw (bytes_eq_refl name) refl in
    let done =
      stop_entry_returns timeout_ms wait name held u e (waited wait.meanwhile e) acted there
        (ended_wait late wait.meanwhile e ends) in
    (
      record u { locked = false; processes = insert name (left_as wait.meanwhile e) u.processes },
      rw (free, with_lock) (rw (found, stop_locked) (rw on (rw done refl))),
      quiet ∙ append_assoc s.signals _ _,
      λ j. lookup-insert name j _ u.processes ∙ rw (entries j, lookup-insert) (ground arith),
    )
