-- ===== src/Supervisor/Watchdog.antt =====
-- The watchdog of ProcessSupervisor, and its destructor.
use sandobox_cpp.Base.{
  ℕ, ℤ, pos, negsuc, Bytes, List, [], ◌∷◌, Bool, true, false, ◌&&◌, ◌||◌, Option, none, some,
  if◌then◌else◌, ltb, map, Assoc,
}
use sandobox_cpp.Supervisor.Types.{ProcessEntry, absent, looping, returned}
use sandobox_cpp.Supervisor.Act.{returns, terminated, Act, ◌>>=◌, ◌>>◌, pure, the_entry, with_lock}
use sandobox_cpp.Supervisor.Process.{watchdog, Fork, wexitstatus, handle_exit}
use sandobox_cpp.Supervisor.Control.{is_running, stop_all}

unfoldable pub start_watchdog : Act Bool
start_watchdog s =
    if s.watchdog_running
    then returns false s
    else returns true (record s { watchdog_running = true })

unfoldable pub stop_watchdog : Act Bool
stop_watchdog s = returns true (record s { watchdog_running = false })

-- What waitpid answers the watchdog for a process, with the clock and fork's answer.
pub record Reaped : Type 0 where
  pub exited : Option ℕ
  pub now : ℕ
  pub fork : Fork

abbrev pub has_pid : ℤ → Bool
has_pid (pos n) = ltb 0 n
has_pid (negsuc n) = false

-- The watchdog hands handle_exit a code that is decoded already.
unfoldable pub reap : Reaped → Bytes → Option ℕ → Act (Unit {0})
unfolding handle_exit
reap reaped name none = pure tt
reap reaped name (some status) =
    handle_exit watchdog reaped.fork reaped.now name (wexitstatus status)

-- The watchdog's look at one process.
unfoldable pub watch : Reaped → Bytes → Act (Unit {0})
unfolding reap
watch reaped name = do
  entry ← the_entry name
  if is_running entry.state.status && has_pid entry.state.pid
      then reap reaped name reaped.exited
      else pure tt

-- The loop over what is left of the processes, with waitpid's answer for each.
unfoldable pub watch_all : (Bytes → Reaped) → List Bytes → Act (Unit {0})
unfolding watch
watch_all answers [] = pure tt
watch_all answers (name ∷ names) = do watch (answers name) name; watch_all answers names

unfoldable pub watchdog_locked : (Bytes → Reaped) → Act (Unit {0})
unfolding watch_all
watchdog_locked answers s = watch_all answers (map (λ (name, entry). name) s.processes) s

unfoldable pub watchdog_round : (Bytes → Reaped) → Act (Unit {0})
unfolding with_lock watchdog_locked
watchdog_round answers = with_lock (watchdog_locked answers)

-- The destructor: every entry's std::thread is destroyed.
abbrev pub has_thread : ProcessEntry → Bool
has_thread entry = elim entry.monitor [ absent ↦ false | looping ↦ true | returned ↦ true ]

unfoldable pub any_thread : Assoc ProcessEntry → Bool
any_thread [] = false
any_thread ((name, entry) ∷ rest) = has_thread entry || any_thread rest

unfoldable pub destroy : Act (Unit {0})
unfolding stop_all stop_watchdog any_thread
destroy = do
  _ ← stop_all
  _ ← stop_watchdog
  λ s. if any_thread s.processes then terminated else returns tt (record s { processes = [] })
