-- ===== src/Supervisor/Keeps.antt =====
-- The public operations keep the entries sound.
use sandobox_cpp.Base.{
  ◌≡◌, refl, subst, ℕ, ℤ, not, ◌||◌, Bytes, [], ◌∷◌, Bool, true, false, if◌then◌else◌, is_some,
  lookup, insert, none, some, Option-cases, Bool-cases, inl, inr, arith, Assoc,
}
use mathlib.Core.Option
use sandobox_cpp.Supervisor.Types.{
  Supervisor, ProcessEntry, ProcessConfig, Status, Monitor, absent, looping, returned,
}
use sandobox_cpp.Supervisor.Act.{returns, Act, with_lock, then_do, the_entry}
use sandobox_cpp.Supervisor.Rules.{Holds, Holds-bind, Holds-if, Holds-with_lock}
use sandobox_cpp.Supervisor.Process.{client, Fork}
use sandobox_cpp.Supervisor.Control.{
  is_running, fresh_entry, add_locked, start_locked, stop_locked, remove_locked, stop_all_locked,
  add_process, start, overdue, kill_if, mark_stopped, Wait, monitor_acts, stop_entry, stop,
  erase_entry, remove_process, restart, stop_each, stop_one, stop_all,
}
use sandobox_cpp.Supervisor.Rounds.{monitor_acts-Sound}
use sandobox_cpp.Supervisor.Invariant.{
  IsSound, AllSound, others, insert_sound, erase_sound, Sound, spawn_process-Sound,
}

-- A property of the entries does not look at the lock.
pub locked_Sound {ℓ} :
    {A : Type ℓ} (body : Act A) (s : Supervisor)
    → Holds Sound (body (record s { locked = true }))
    → Holds Sound (with_lock body s)
locked_Sound body s h = Holds-with_lock Sound body s (λ a t x. x) h

pub add_process-Sound :
    (config : ProcessConfig) (s : Supervisor)
    → AllSound s.processes
    → Holds Sound (add_process config s)
unfolding add_process
add_process-Sound config s h = locked_Sound (add_locked config) s (
    Holds-if {A = Bool} Sound (is_some (lookup config.name s.processes)) _ _ (λ _. h)
      (λ _.
        insert_sound config.name (fresh_entry config) s.processes (others config.name s.processes h)
          (record { named = refl; counted = omega arith; rests = tt; watched = tt })))

pub start-Sound :
    (fork : Fork) (name : Bytes) (s : Supervisor)
    → AllSound s.processes
    → Holds Sound (start fork name s)
unfolding start
start-Sound fork name s h =
    locked_Sound (start_locked fork name) s (elim (Option-cases (lookup name s.processes)) [
      | inl missing ↦ rw (missing, start_locked) h
      | inr (e, found) ↦
          rw (found, start_locked)
            (Holds-if {A = Bool} Sound (is_running e.state.status) _ _ (λ _. h)
              λ _.
                spawn_process-Sound client fork name (record s { locked = true }) e
                  (others name s.processes h) found (h.at name e found).named)
    ])

kill_if-Sound :
    (late : Bool) (pid : ℤ) (s : Supervisor)
    → AllSound s.processes
    → Holds Sound (kill_if late pid s)
kill_if-Sound true pid s h = h
kill_if-Sound false pid s h = h

mark_stopped-Sound :
    (late : Bool) (name : Bytes) (s : Supervisor)
    → AllSound s.processes
    → Holds Sound (then_do (the_entry name s) (mark_stopped late name))
unfolding the_entry
mark_stopped-Sound late name s h = elim (Option-cases (lookup name s.processes)) [
  | inl missing ↦ rw (missing, the_entry) tt
  | inr (e, found) ↦
      let sound = h.at name e found in
      let stopped_entry = record e { state = record e.state { status = Status.stopped } } in
      rw (found, the_entry)
        (unfold mark_stopped in
          Holds-if {A = Bool} Sound (late || not (is_running e.state.status)) _ _
            (λ _.
              insert_sound name stopped_entry s.processes (others name s.processes h)
                (record { named = sound.named; counted = sound.counted; rests = tt; watched = tt }))
            (λ _. tt))
]

stop_entry-Sound :
    (timeout_ms : ℕ) (wait : Wait) (name : Bytes) (e : ProcessEntry) (s : Supervisor)
    → AllSound s.processes
    → IsSound name e
    → Holds Sound (stop_entry timeout_ms wait name e s)
unfolding stop_entry
stop_entry-Sound timeout_ms wait name e s h sound =
    let late = overdue timeout_ms wait.elapsed in
    let cleared : ProcessEntry = record e { running = false } in
    let begun : AllSound (insert name cleared s.processes) =
      insert_sound name cleared s.processes (others name s.processes h) (record {
        named = sound.named;
        counted = sound.counted;
        rests = sound.rests;
        watched = sound.watched;
      }) in
    Holds-bind Sound Sound (kill_if late e.state.pid _) _ (kill_if-Sound late e.state.pid _ begun)
      λ _ t kept.
        Holds-bind Sound Sound (monitor_acts name wait.meanwhile t) _
          (monitor_acts-Sound name wait.meanwhile t kept)
          (λ _ u still. mark_stopped-Sound late name u still)

pub stop-Sound :
    (timeout_ms : ℕ) (wait : Wait) (name : Bytes) (s : Supervisor)
    → AllSound s.processes
    → Holds Sound (stop timeout_ms wait name s)
unfolding stop
stop-Sound timeout_ms wait name s h =
    locked_Sound (stop_locked timeout_ms wait name) s
      (elim (Option-cases (lookup name s.processes)) [
        | inl missing ↦ rw (missing, stop_locked) h
        | inr (e, found) ↦
            rw (found, stop_locked)
              (Holds-if {A = Bool} Sound (is_running e.state.status) _ _
                (λ _.
                  stop_entry-Sound timeout_ms wait name e (record s { locked = true }) h
                    (h.at name e found))
                (λ _. h))
      ])

erase_entry-Sound :
    (name : Bytes) (m : Monitor) (s : Supervisor)
    → AllSound s.processes
    → Holds Sound (erase_entry name m s)
unfolding erase_entry
erase_entry-Sound name absent s h = erase_sound name s.processes h
erase_entry-Sound name looping s h = tt
erase_entry-Sound name returned s h = tt

pub remove_process-Sound :
    (wait : Wait) (name : Bytes) (s : Supervisor)
    → AllSound s.processes
    → Holds Sound (remove_process wait name s)
unfolding remove_process
remove_process-Sound wait name s h =
    let held : Supervisor = record s { locked = true } in
    locked_Sound (remove_locked wait name) s (elim (Option-cases (lookup name s.processes)) [
      | inl missing ↦ rw (missing, remove_locked) h
      | inr (e, found) ↦
          rw (found, remove_locked)
            (Holds-bind Sound Sound
              (if is_running e.state.status then stop 5000 wait name held else returns true held)
              (λ _. erase_entry name e.monitor)
              (Holds-if {A = Bool} Sound (is_running e.state.status) _ _
                (λ _. stop-Sound 5000 wait name held h) (λ _. h))
              (λ _ t sound. erase_entry-Sound name e.monitor t sound))
    ])

pub restart-Sound :
    (wait : Wait) (fork : Fork) (name : Bytes) (s : Supervisor)
    → AllSound s.processes
    → Holds Sound (restart wait fork name s)
unfolding restart
restart-Sound wait fork name s h =
    Holds-bind Sound Sound (stop 5000 wait name s) (λ _. start fork name)
      (stop-Sound 5000 wait name s h) (λ _ t sound. start-Sound fork name t sound)

pub lookup-stop_each :
    (j : Bytes) (m : Assoc ProcessEntry)
    → lookup j (stop_each m).0 ≡ Option.map stop_one (lookup j m)
unfolding lookup stop_each
lookup-stop_each j [] = refl
lookup-stop_each j ((name, e) ∷ m) = ground (arith, lookup-stop_each j m)

-- stop_all clears `running` of entries, which soundness does not look at.
stop_one-IsSound : (j : Bytes) (e : ProcessEntry) → IsSound j e → IsSound j (stop_one e)
unfolding stop_one
stop_one-IsSound j e s = elim (Bool-cases (is_running e.state.status)) [
  | inl up ↦
      rw up (record { named = s.named; counted = s.counted; rests = s.rests; watched = s.watched })
  | inr down ↦ rw down s
]

pub stop_all-Sound : (s : Supervisor) → AllSound s.processes → Holds Sound (stop_all s)
unfolding stop_all
stop_all-Sound s h = locked_Sound stop_all_locked s (
    unfold stop_all_locked in
    record {
      at = λ j e' found. elim (Option-cases (lookup j s.processes)) [
        | inl missing ↦ let gone : none ≡ some e' = rw (lookup-stop_each, missing) at found in cc
        | inr (e, there) ↦
            let same : some (stop_one e) ≡ some e' = rw (lookup-stop_each, there) at found in
            subst (IsSound j) (cc) (stop_one-IsSound j e (h.at j e there))
      ];
    })
