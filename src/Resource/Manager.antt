-- ===== src/Resource/Manager.antt =====
-- class ResourceManager of sandbox/src/resource_monitor.cpp. What /proc says of each sandbox is a
-- function of its id; a call that reads twice gets two of them.
pub mod Totals
pub mod Entries
pub mod Steps
pub mod Watch
pub mod Reports
pub mod Unordered
use sandobox_cpp.Base.{
  ℕ, ◌+◌, ◌%◌, ◌^◌, Bytes, List, [], ◌∷◌, ◌++◌, length, drop, map, Bool, true, false, Option, none,
  some, Assoc, lookup, insert, erase, if◌then◌else◌,
}
use sandobox_cpp.Resource.{
  ResourceLimits, ResourceUsage, ResourceAlert, ResourceMonitor, Proc, read_usage, fresh_monitor,
  start, stop, on_alert, get_usage, is_over_limit,
}
use sandobox_cpp.Resource.Loop.{Round, monitor_round}

-- `reported` are the calls of global_alert_callback_, and `released` the monitors that the map has let
-- go of, as they were then.
pub record ResourceManager : Type 0 where
  pub monitors : Assoc ResourceMonitor
  pub has_global_callback : Bool
  pub reported : List (Bytes × ResourceAlert)
  pub released : List ResourceMonitor

-- the constructor
abbrev pub fresh_manager : ResourceManager
fresh_manager = record { monitors = []; has_global_callback = false; reported = []; released = [] }

-- A shared_ptr of the map goes. The last one takes the monitor with it, and ~ResourceMonitor stops it;
-- `held` says that a caller of get_monitor still has one.
unfoldable pub let_go : Bool → ResourceMonitor → ResourceMonitor
unfolding stop
let_go held m = if held then m else (stop m).1

unfoldable pub replaced :
    Bool → Option ResourceMonitor → List ResourceMonitor → List ResourceMonitor
unfolding let_go
replaced held none released = released
replaced held (some m) released = released ++ let_go held m ∷ []

unfoldable pub add_monitor :
    Bool → Bytes → ResourceLimits → ResourceManager → Bool × ResourceManager
unfolding start replaced
add_monitor held id limits mgr =
    let (started, m) = start (on_alert (fresh_monitor limits)) in
    (
      started,
      record mgr {
        monitors = insert id m mgr.monitors;
        released = replaced held (lookup id mgr.monitors) mgr.released;
      },
    )

unfoldable pub remove_monitor : Bytes → ResourceManager → Bool × ResourceManager
unfolding stop
remove_monitor id mgr = elim (lookup id mgr.monitors) [
  | none ↦ (false, mgr)
  | some m ↦ (
    true,
    record mgr { monitors = erase id mgr.monitors; released = mgr.released ++ (stop m).1 ∷ [] },
  )
]

-- The shared_ptr that it gives is the monitor of the map: what a caller does through it is done to the
-- entry, as Steps has it.
unfoldable pub get_monitor : Bytes → ResourceManager → Option ResourceMonitor
get_monitor id mgr = lookup id mgr.monitors

-- ResourceManager::on_alert
abbrev pub on_any_alert : ResourceManager → ResourceManager
on_any_alert mgr = record mgr { has_global_callback = true }

-- ~ResourceManager: the map lets go of its monitors.
unfoldable pub let_all_go : (Bytes → Bool) → Assoc ResourceMonitor → List ResourceMonitor
unfolding let_go
let_all_go held [] = []
let_all_go held ((id, m) ∷ rest) = let_go (held id) m ∷ let_all_go held rest

unfoldable pub destroy : (Bytes → Bool) → ResourceManager → ResourceManager
unfolding let_all_go
destroy held mgr = record mgr {
  monitors = [];
  released = mgr.released ++ let_all_go held mgr.monitors;
}

-- The callback of add_monitor, for one alert after another.
unfoldable pub forward : Bytes → List ResourceAlert → ResourceManager → ResourceManager
forward id alerts mgr =
    if mgr.has_global_callback
    then record mgr { reported = mgr.reported ++ map (λ alert. (id, alert)) alerts }
    else mgr

-- A round of the thread of the monitor under an id: the loop tests running_ first.
module _ (above_90 above_75 : ℕ → ℕ → Bool) where
  unfoldable pub watch : ℕ → Bytes → Round → ResourceMonitor → ResourceManager → ResourceManager
  unfolding forward
  watch ticks id round m mgr =
      let m' = monitor_round above_90 above_75 ticks round m in
      if m.running
      then forward id (drop (length m.emitted) m'.emitted)
          (record mgr { monitors = insert id m' mgr.monitors })
      else mgr

  unfoldable pub watch_one : ℕ → Bytes → Round → ResourceManager → ResourceManager
  unfolding watch
  watch_one ticks id round mgr = elim (lookup id mgr.monitors) [
    | none ↦ mgr
    | some m ↦ watch ticks id round m mgr
  ]

pub record SandboxUsage : Type 0 where
  pub sandbox_id : Bytes
  pub usage : ResourceUsage
  pub over_limit : Bool

unfoldable pub get_all_usage :
    ℕ
    → (Bytes → Proc)
    → (Bytes → Proc)
    → Assoc ResourceMonitor
    → List SandboxUsage × Assoc ResourceMonitor
unfolding get_usage is_over_limit
get_all_usage ticks first second [] = ([], [])
get_all_usage ticks first second ((id, m) ∷ rest) =
    let (usage, m₁) = get_usage ticks (first id) m in
    let (over, m₂) = is_over_limit ticks (second id) m₁ in
    let (usages, monitors) = get_all_usage ticks first second rest in
    (record { sandbox_id = id; usage = usage; over_limit = over } ∷ usages, (id, m₂) ∷ monitors)

pub record GlobalStats : Type 0 where
  pub total_memory_used : ℕ
  pub total_cpu_percent : ℕ
  pub total_pids : ℕ
  pub total_sandboxes : ℕ
  pub sandboxes_over_limit : ℕ

abbrev pub no_stats : GlobalStats
no_stats = record {
  total_memory_used = 0;
  total_cpu_percent = 0;
  total_pids = 0;
  total_sandboxes = 0;
  sandboxes_over_limit = 0;
}

-- The sums are in 64 and in 32 bits.
unfoldable pub add_usage : ResourceUsage → Bool → GlobalStats → GlobalStats
add_usage usage over stats = record {
  total_memory_used = (stats.total_memory_used + usage.memory_bytes) % 2 ^ 64;
  total_cpu_percent = (stats.total_cpu_percent + usage.cpu_percent) % 2 ^ 32;
  total_pids = (stats.total_pids + usage.pids_current) % 2 ^ 32;
  total_sandboxes = (stats.total_sandboxes + 1) % 2 ^ 64;
  sandboxes_over_limit =
      if over then (stats.sandboxes_over_limit + 1) % 2 ^ 64 else stats.sandboxes_over_limit;
}

unfoldable pub collect_stats :
    ℕ
    → (Bytes → Proc)
    → (Bytes → Proc)
    → GlobalStats
    → Assoc ResourceMonitor
    → GlobalStats × Assoc ResourceMonitor
unfolding get_usage is_over_limit add_usage
collect_stats ticks first second stats [] = (stats, [])
collect_stats ticks first second stats ((id, m) ∷ rest) =
    let (usage, m₁) = get_usage ticks (first id) m in
    let (over, m₂) = is_over_limit ticks (second id) m₁ in
    let (total, monitors) = collect_stats ticks first second (add_usage usage over stats) rest in
    (total, (id, m₂) ∷ monitors)

unfoldable pub get_global_stats :
    ℕ
    → (Bytes → Proc)
    → (Bytes → Proc)
    → Assoc ResourceMonitor
    → GlobalStats × Assoc ResourceMonitor
unfolding collect_stats
get_global_stats ticks first second monitors = collect_stats ticks first second no_stats monitors
