-- ===== src/Supervisor/Shutdown.antt =====
-- stop of a running process, and the end of the supervisor.
use sandobox_cpp.Base.{
  ◌≡◌, ◌≢◌, refl, Bytes, [], ◌∷◌, true, false, lookup, some, Bool-cases, inl, inr, arith, Assoc,
}
use sandobox_cpp.Supervisor.Types.{Supervisor, ProcessEntry, Monitor, absent, looping, returned}
use sandobox_cpp.Supervisor.Act.{terminated, with_lock}
use sandobox_cpp.Supervisor.Control.{is_running, stop_one, stop_each, stop_all_locked, stop_all}
use sandobox_cpp.Supervisor.Watchdog.{has_thread, any_thread, destroy}
use sandobox_cpp.Supervisor.Keeps.{lookup-stop_each}

any_thread_lem :
    (name : Bytes) (m : Assoc ProcessEntry) (e : ProcessEntry)
    → lookup name m ≡ some e
    → has_thread e ≡ true
    → any_thread m ≡ true
unfolding lookup any_thread
any_thread_lem name [] e found h = cc
any_thread_lem name ((j, x) ∷ m) e found h = ground (arith, any_thread_lem name m e)

has_thread_started :
    (m : Monitor)
    → m ≢ absent
    → (elim m [ absent ↦ false | looping ↦ true | returned ↦ true ]) ≡ true
has_thread_started absent started = elim (started refl) [ ]
has_thread_started looping started = refl
has_thread_started returned started = refl

has_thread_lem : (e : ProcessEntry) → e.monitor ≢ absent → has_thread (stop_one e) ≡ true
unfolding stop_one
has_thread_lem e started = elim (Bool-cases (is_running e.state.status)) [
  | inl up ↦ rw up (has_thread_started e.monitor started)
  | inr down ↦ rw down (has_thread_started e.monitor started)
]

-- Where the mutex is free, the destructor of a supervisor with a process that has been given a monitor
-- thread ends the daemon: it destroys a joinable thread.
pub destroy_terminates :
    (name : Bytes) (s : Supervisor) (e : ProcessEntry)
    → s.locked ≡ false
    → lookup name s.processes ≡ some e
    → e.monitor ≢ absent
    → destroy s ≡ terminated
unfolding destroy stop_all
destroy_terminates name s e free found started =
    let there : lookup name (stop_each s.processes).0 ≡ some (stop_one e) =
      rw (lookup-stop_each, found) refl in
    let one =
      any_thread_lem name (stop_each s.processes).0 (stop_one e) there (has_thread_lem e started) in
    rw (free, with_lock) (rw (one, stop_all_locked) refl)
