-- ===== src/Supervisor/Rounds.antt =====
-- The rounds of the monitor threads and of the watchdog keep the entries sound.
use sandobox_cpp.Base.{
  ℕ, Bytes, List, [], ◌∷◌, ◌++◌, ◌&&◌, lookup, Option, none, some, Option-cases, inl, inr,
}
use sandobox_cpp.Supervisor.Types.{Supervisor, ProcessEntry, Status, running, returned, sigkill}
use sandobox_cpp.Supervisor.Act.{pure, the_entry}
use sandobox_cpp.Supervisor.Rules.{Holds, Holds-bind, Holds-if_act}
use sandobox_cpp.Supervisor.Process.{
  watchdog, monitor_of, Round, handle_exit, monitor_round, after_wait, timed_out, thread_returns,
  with_memory, wexitstatus,
}
use sandobox_cpp.Supervisor.Control.{is_running, Meanwhile, sleeps, quits, finds, monitor_acts}
use sandobox_cpp.Supervisor.Watchdog.{Reaped, has_pid, reap, watch, watch_all}
use sandobox_cpp.Supervisor.Invariant.{
  IsWatched, IsSound, AllSound, others, insert_sound, Sound, handle_exit-Sound,
}

IsWatched-returned : (status : Status) → IsWatched status returned
IsWatched-returned running = tt
IsWatched-returned _ = tt

thread_returns-Sound :
    (name : Bytes) (s : Supervisor) → AllSound s.processes → Holds Sound (thread_returns name s)
unfolding the_entry
thread_returns-Sound name s h = elim (Option-cases (lookup name s.processes)) [
  | inl missing ↦ rw (missing, the_entry) tt
  | inr (e, found) ↦
      rw (found, the_entry)
        (let sound = h.at name e found in
          insert_sound name (record e { monitor = returned }) s.processes
            (others name s.processes h)
            (record {
              named = sound.named;
              counted = sound.counted;
              rests = sound.rests;
              watched = IsWatched-returned e.state.status;
            }))
]

with_memory-IsSound :
    (name : Bytes) (rss : Option ℕ) (e : ProcessEntry)
    → IsSound name e
    → IsSound name (record e { state = with_memory rss e.state })
with_memory-IsSound name none e s = record {
  named = s.named;
  counted = s.counted;
  rests = s.rests;
  watched = s.watched;
}
with_memory-IsSound name (some kb) e s = record {
  named = s.named;
  counted = s.counted;
  rests = s.rests;
  watched = s.watched;
}

after_wait-Sound :
    (round : Round) (name : Bytes) (e : ProcessEntry) (exited : Option ℕ) (s : Supervisor)
    → AllSound s.processes
    → IsSound name e
    → Holds Sound (after_wait round name e exited s)
unfolding after_wait
after_wait-Sound round name e (some status) s h sound =
    Holds-bind Sound Sound (handle_exit (monitor_of name) round.fork round.now name status s) _
      (handle_exit-Sound (monitor_of name) round.fork round.now name status s h)
      (λ _ t kept. thread_returns-Sound name t kept)
after_wait-Sound round name e none s h sound =
    Holds-if_act Sound (timed_out round.now e) _ _ s
      (λ _.
        thread_returns-Sound name (record s { signals = s.signals ++ (e.state.pid, sigkill) ∷ [] })
          h)
      (λ _.
        insert_sound name _ s.processes (others name s.processes h)
          (with_memory-IsSound name round.rss_kb e sound))

pub monitor_round-Sound :
    (round : Round) (name : Bytes) (s : Supervisor)
    → AllSound s.processes
    → Holds Sound (monitor_round round name s)
unfolding monitor_round
monitor_round-Sound round name s h = elim (Option-cases (lookup name s.processes)) [
  | inl missing ↦ rw (missing, the_entry) tt
  | inr (e, found) ↦
      rw (found, the_entry)
        (Holds-if_act Sound e.running (after_wait round name e round.exited) (thread_returns name) s
          (λ _. after_wait-Sound round name e round.exited s h (h.at name e found))
          (λ _. thread_returns-Sound name s h))
]

pub monitor_acts-Sound :
    (name : Bytes) (m : Meanwhile) (s : Supervisor)
    → AllSound s.processes
    → Holds Sound (monitor_acts name m s)
unfolding monitor_acts
monitor_acts-Sound name sleeps s h = h
monitor_acts-Sound name quits s h = thread_returns-Sound name s h
monitor_acts-Sound name (finds status now fork) s h =
    Holds-bind Sound Sound (handle_exit (monitor_of name) fork now name status s) _
      (handle_exit-Sound (monitor_of name) fork now name status s h)
      (λ _ t kept. thread_returns-Sound name t kept)

reap-Sound :
    (reaped : Reaped) (name : Bytes) (exited : Option ℕ) (s : Supervisor)
    → AllSound s.processes
    → Holds Sound (reap reaped name exited s)
unfolding reap
reap-Sound reaped name none s h = h
reap-Sound reaped name (some status) s h =
    handle_exit-Sound watchdog reaped.fork reaped.now name (wexitstatus status) s h

watch-Sound :
    (reaped : Reaped) (name : Bytes) (s : Supervisor)
    → AllSound s.processes
    → Holds Sound (watch reaped name s)
unfolding watch
watch-Sound reaped name s h = elim (Option-cases (lookup name s.processes)) [
  | inl missing ↦ rw (missing, the_entry) tt
  | inr (e, found) ↦
      rw (found, the_entry)
        (Holds-if_act Sound (is_running e.state.status && has_pid e.state.pid)
          (reap reaped name reaped.exited) (pure tt) s
          (λ _. reap-Sound reaped name reaped.exited s h) (λ _. h))
]

pub watch_all-Sound :
    (answers : Bytes → Reaped) (names : List Bytes) (s : Supervisor)
    → AllSound s.processes
    → Holds Sound (watch_all answers names s)
unfolding watch_all
watch_all-Sound answers [] s h = h
watch_all-Sound answers (name ∷ names) s h =
    Holds-bind Sound Sound (watch (answers name) name s) (λ _. watch_all answers names)
      (watch-Sound (answers name) name s h) (λ _ t kept. watch_all-Sound answers names t kept)
