-- ===== src/Daemon/Callbacks.antt =====
-- The functions that main of sandbox/src/main.cpp hands to its parts: the health checks, and on_event of the supervisor.
use sandobox_cpp.Base.{
  ℕ, ltb, Bytes, [], ◌∷◌, ◌++◌, Bool, true, false, text, decimal, decimal_int, bytes_eq,
  if◌then◌else◌,
}
use sandobox_cpp.Supervisor.Types.{EventType, ProcessEvent}
use sandobox_cpp.Resource.Manager.{GlobalStats}
use sandobox_cpp.Health
use sandobox_cpp.Health.{HealthMonitor}
use sandobox_cpp.Jobs.Calls.{Server}
use sandobox_cpp.Jobs.{Doubles, World, note, count_one}

-- the check "resources"
unfoldable pub resources_check : GlobalStats → Bool × Bytes
resources_check stats =
    if ltb 0 stats.sandboxes_over_limit
    then (false, decimal stats.sandboxes_over_limit ++ text " sandboxes over limit")
    else (true, text "ok")

-- the checks by their ids
unfoldable pub checks : GlobalStats → Bytes → Bool × Bytes
unfolding resources_check
checks stats id =
    if bytes_eq id (text "redis")
    then (true, text "ok")
    else if bytes_eq id (text "sandbox")
    then (true, text "running")
    else resources_check stats

-- The health monitor after main has set it up.
unfoldable pub monitored : ℕ → HealthMonitor → HealthMonitor
monitored now h = sandobox_cpp.Health.start (
    sandobox_cpp.Health.set_interval_ms 5000 (
      sandobox_cpp.Health.register_check (text "resources") now (
        sandobox_cpp.Health.register_check (text "sandbox") now
          (sandobox_cpp.Health.register_check (text "redis") now h))))

abbrev pub type_str : EventType → Bytes
type_str EventType.started = text "STARTED"
type_str EventType.stopped = text "STOPPED"
type_str EventType.crashed = text "CRASHED"
type_str EventType.restarted = text "RESTARTED"
type_str EventType.health_check_failed = text "HEALTH_FAIL"

module _ (srv : Server) (d : Doubles) (clock : ℕ → ℕ) (sandbox_id : Bytes)
    (use_seccomp : Bool) where
  unfoldable pub on_event : ProcessEvent → World srv.State d.V → World srv.State d.V
  unfolding note count_one
  on_event e w =
      let message =
        e.process_name
        ++ (text ": pid=" ++ (decimal_int e.pid ++ (text " exit=" ++ decimal e.exit_code))) in
      let noted =
        note srv d clock sandbox_id use_seccomp (text "supervisor") (type_str e.type) message w in
      count_one srv d clock sandbox_id use_seccomp (text "supervisor.events_total")
        ((text "type", type_str e.type) ∷ []) noted
