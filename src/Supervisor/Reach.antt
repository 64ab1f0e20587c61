-- ===== src/Supervisor/Reach.antt =====
-- Every history of calls keeps the entries sound.
use sandobox_cpp.Base.{ℕ, ◌≡◌, subst, Bytes, List, [], ◌∷◌, Bool, lookup}
use sandobox_cpp.Supervisor.Types.{Supervisor, initial, ProcessConfig}
use sandobox_cpp.Supervisor.Act.{Outcome, returns, Act, ◌>>=◌, ◌>>◌, pure}
use sandobox_cpp.Supervisor.Rules.{Holds, Holds-bind, Holds-if}
use sandobox_cpp.Supervisor.Process.{Fork, Round, monitor_round}
use sandobox_cpp.Supervisor.Control.{
  add_process, start, stop, remove_process, restart, stop_all, on_event, Wait,
}
use sandobox_cpp.Supervisor.Watchdog.{
  start_watchdog, stop_watchdog, Reaped, watchdog_round, watchdog_locked,
}
use sandobox_cpp.Supervisor.Invariant.{AllSound, Sound}
use sandobox_cpp.Supervisor.Keeps.{
  locked_Sound, add_process-Sound, start-Sound, stop-Sound, remove_process-Sound, restart-Sound,
  stop_all-Sound,
}
use sandobox_cpp.Supervisor.Rounds.{monitor_round-Sound, watch_all-Sound}

-- The calls that change the supervisor, made by clients, by monitor threads and by the watchdog, with
-- what the operating system answers them.
pub data Call : Type 0 where
  adds : ProcessConfig → Call
  starts : Fork → Bytes → Call
  stops : ℕ → Wait → Bytes → Call
  removes : Wait → Bytes → Call
  restarts : Wait → Fork → Bytes → Call
  stops_all : Call
  sets_callback : Call
  starts_watchdog : Call
  stops_watchdog : Call
  monitors : Round → Bytes → Call
  watches : (Bytes → Reaped) → Call

abbrev ignore : {A : Type 0} → Act A → Act (Unit {0})
ignore m = m >>= λ _. pure tt

unfoldable pub perform : Call → Act (Unit {0})
perform (adds config) = ignore (add_process config)
perform (starts fork name) = ignore (start fork name)
perform (stops timeout_ms wait name) = ignore (stop timeout_ms wait name)
perform (removes wait name) = ignore (remove_process wait name)
perform (restarts wait fork name) = ignore (restart wait fork name)
perform stops_all = ignore stop_all
perform sets_callback = on_event
perform starts_watchdog = ignore start_watchdog
perform stops_watchdog = ignore stop_watchdog
perform (monitors round name) = monitor_round round name
perform (watches answers) = watchdog_round answers

unfoldable pub run : List Call → Act (Unit {0})
run [] = pure tt
run (call ∷ calls) = do perform call; run calls

ignore-Sound :
    {A : Type 0} (m : Act A) (s : Supervisor) → Holds Sound (m s) → Holds Sound (ignore m s)
ignore-Sound m s h = Holds-bind Sound Sound (m s) (λ _. pure tt) h (λ _ t kept. kept)

perform-Sound : (call : Call) (s : Supervisor) → AllSound s.processes → Holds Sound (perform call s)
unfolding perform
perform-Sound (adds config) s h = ignore-Sound (add_process config) s (add_process-Sound config s h)
perform-Sound (starts fork name) s h = ignore-Sound (start fork name) s (start-Sound fork name s h)
perform-Sound (stops timeout_ms wait name) s h =
    ignore-Sound (stop timeout_ms wait name) s (stop-Sound timeout_ms wait name s h)
perform-Sound (removes wait name) s h =
    ignore-Sound (remove_process wait name) s (remove_process-Sound wait name s h)
perform-Sound (restarts wait fork name) s h =
    ignore-Sound (restart wait fork name) s (restart-Sound wait fork name s h)
perform-Sound stops_all s h = ignore-Sound stop_all s (stop_all-Sound s h)
perform-Sound sets_callback s h = unfold on_event in h
perform-Sound starts_watchdog s h =
    ignore-Sound start_watchdog s
      (unfold start_watchdog in Holds-if {A = Bool} Sound s.watchdog_running _ _ (λ _. h) (λ _. h))
perform-Sound stops_watchdog s h = unfold stop_watchdog in h
perform-Sound (monitors round name) s h = monitor_round-Sound round name s h
perform-Sound (watches answers) s h =
    unfold watchdog_round in
    locked_Sound (watchdog_locked answers) s
      (unfold watchdog_locked in watch_all-Sound answers _ _ h)

run-Sound : (calls : List Call) (s : Supervisor) → AllSound s.processes → Holds Sound (run calls s)
unfolding run
run-Sound [] s h = h
run-Sound (call ∷ calls) s h =
    Holds-bind Sound Sound (perform call s) (λ _. run calls) (perform-Sound call s h)
      (λ _ t kept. run-Sound calls t kept)

-- What holds of every outcome that returns holds of this one.
Holds-returns :
    {A : Type 0} (P : A → Supervisor → Type 0) {o : Outcome A} {a : A} {s : Supervisor}
    → o ≡ returns a s
    → Holds P o
    → P a s
Holds-returns P e h = subst (Holds P) e h

-- Whatever calls are made on a new supervisor, in whatever order and with whatever answers of the
-- operating system: if they all return, each entry stands under its own name, its restart count is 0,
-- it rests neither in STARTING nor in RESTARTING, and if it is RUNNING it has been given a monitor
-- thread.
pub run-AllSound :
    (calls : List Call) (s : Supervisor) → run calls initial ≡ returns tt s → AllSound s.processes
run-AllSound calls s e =
    Holds-returns (λ _ t. AllSound t.processes) e
      (run-Sound calls initial (unfold lookup in record { at = λ j x found. cc }))
