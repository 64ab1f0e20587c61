-- ===== src/Resource/Manager/Steps.antt =====
-- ResourceManager of sandbox/src/resource_monitor.cpp over its calls and the rounds of its monitors'
-- threads, one after another.
use sandobox_cpp.Base.{ℕ, ◌≡◌, Bytes, List, [], ◌∷◌, Bool, true, false, Assoc, none, some, insert}
use sandobox_cpp.Resource.{ResourceLimits, ResourceMonitor, Proc, start, stop, set_limit, get_usage}
use sandobox_cpp.Resource.Loop.{Round}
use sandobox_cpp.Resource.Manager.{
  ResourceManager, get_monitor, add_monitor, remove_monitor, on_any_alert, watch_one,
  get_global_stats, get_all_usage,
}

-- A call on a monitor of the map through the pointer of get_monitor. The calls that only read are `reads`; on_alert,
-- which takes the monitor's alerts away from the manager, is not among them.
pub data Use : Type 0 where
  starts stops : Use
  reads : Proc → Use
  limits_to : ResourceLimits → Use

-- A call of the manager, a call on the monitor under an id, or a round of that monitor. An addition says
-- whether a caller of get_monitor still holds the monitor that it replaces.
pub data Step : Type 0 where
  add : Bool → Bytes → ResourceLimits → Step
  remove : Bytes → Step
  listen : Step
  all_usage global_stats : (Bytes → Proc) → (Bytes → Proc) → Step
  through : Bytes → Use → Step
  round_of : Bytes → Round → Step

-- The monitor is running, and its alerts go to the manager.
abbrev pub IsWatched : ResourceMonitor → Type 0
IsWatched m = (m.running ≡ true) × (m.has_callback ≡ true)

abbrev pub AllWatched : Assoc ResourceMonitor → Type 0
AllWatched [] = Unit
AllWatched ((id, m) ∷ rest) = IsWatched m × AllWatched rest

abbrev pub AllStopped : List ResourceMonitor → Type 0
AllStopped [] = Unit
AllStopped (m ∷ ms) = (m.running ≡ false) × AllStopped ms

-- No caller of get_monitor holds a monitor that is replaced, or stops one.
abbrev pub HoldsNone : Step → Type 0
HoldsNone (add held id limits) = held ≡ false
HoldsNone (through id stops) = ⊥
HoldsNone _ = Unit

abbrev pub NoneHeld : List Step → Type 0
NoneHeld [] = Unit
NoneHeld (step ∷ steps) = HoldsNone step × NoneHeld steps

-- What the map has is watched, and what it has let go of is stopped.
abbrev pub IsSound : ResourceManager → Type 0
IsSound mgr = AllWatched mgr.monitors × AllStopped mgr.released

unfoldable pub use_monitor : ℕ → Use → ResourceMonitor → ResourceMonitor
unfolding start stop get_usage set_limit
use_monitor ticks starts m = (start m).1
use_monitor ticks stops m = (stop m).1
use_monitor ticks (reads proc) m = (get_usage ticks proc m).1
use_monitor ticks (limits_to limits) m = set_limit limits m

module _ (above_90 above_75 : ℕ → ℕ → Bool) (ticks : ℕ) where
  unfoldable pub apply : Step → ResourceManager → ResourceManager
  unfolding add_monitor remove_monitor get_all_usage get_global_stats get_monitor watch_one
      use_monitor
  apply (add held id limits) mgr = (add_monitor held id limits mgr).1
  apply (remove id) mgr = (remove_monitor id mgr).1
  apply listen mgr = on_any_alert mgr
  apply (all_usage first second) mgr = record mgr {
    monitors = (get_all_usage ticks first second mgr.monitors).1;
  }
  apply (global_stats first second) mgr = record mgr {
    monitors = (get_global_stats ticks first second mgr.monitors).1;
  }
  apply (through id how) mgr = elim (get_monitor id mgr) [
    | none ↦ mgr
    | some m ↦ record mgr { monitors = insert id (use_monitor ticks how m) mgr.monitors }
  ]
  apply (round_of id round) mgr = watch_one above_90 above_75 ticks id round mgr

  unfoldable pub apply_all : List Step → ResourceManager → ResourceManager
  unfolding apply
  apply_all [] mgr = mgr
  apply_all (step ∷ steps) mgr = apply_all steps (apply step mgr)
