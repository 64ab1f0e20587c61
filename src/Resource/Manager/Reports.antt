-- ===== src/Resource/Manager/Reports.antt =====
-- What ResourceManager of sandbox/src/resource_monitor.cpp reports of a sandbox, against what
-- get_violations finds.
use sandobox_cpp.Base.{
  ℕ, ◌<◌, ◌≤◌, ◌≡◌, refl, ap, Bytes, List, ◌++◌, length, map, filter, drop-append, Bool, true, some,
  lookup,
}
use sandobox_cpp.Resource.{ResourceAlert, ResourceMonitor, read_usage, get_violations}
use sandobox_cpp.Resource.Loop.{Round, monitor_round}
use sandobox_cpp.Resource.Manager.{ResourceManager, forward, watch, watch_one}
use sandobox_cpp.Resource.Alerts.{gist, is_over}
use sandobox_cpp.Resource.Alerts.Raised.{
  raised, raised-violations, length-raised, monitor_round-raised,
}

module _ (above_90 above_75 : ℕ → ℕ → Bool) where
  watch-reported :
      (ticks : ℕ) (id : Bytes) (round : Round) (mgr : ResourceManager) (m : ResourceMonitor)
      (new : List ResourceAlert)
      → m.running ≡ true
      → mgr.has_global_callback ≡ true
      → (monitor_round above_90 above_75 ticks round m).emitted ≡ m.emitted ++ new
      → (watch above_90 above_75 ticks id round m mgr).reported
        ≡ mgr.reported ++ map (λ alert. (id, alert)) new
  unfolding watch forward
  watch-reported ticks id round mgr m new on heard e =
      rw (e, drop-append m.emitted new, heard, on) refl

  -- In a round of a monitor that the manager watches.
  pub watch_one_reports :
      ((used limit : ℕ) → limit < used → above_90 used limit ≡ true)
      → (ticks : ℕ) (id : Bytes) (round : Round) (mgr : ResourceManager) (m : ResourceMonitor)
      → lookup id mgr.monitors ≡ some m
      → m.running ≡ true
      → m.has_callback ≡ true
      → mgr.has_global_callback ≡ true
      → (new : List ResourceAlert) × ((watch_one above_90 above_75 ticks id round mgr).reported
          ≡ mgr.reported ++ map (λ alert. (id, alert)) new)
        × (map gist (filter is_over new) ≡ map gist (get_violations ticks round.proc m).0)
        × (length new ≤ 2)
  unfolding watch_one get_violations
  watch_one_reports sound ticks id round mgr m found on called heard =
      let usage = (read_usage ticks round.proc m.prev_cpu_time).0 in
      let new = raised above_90 above_75 round.checked_at usage m.limits in
      (
        new,
        rw (found, watch_one)
            (watch-reported ticks id round mgr m new on heard (
              ap (λ m'. m'.emitted) (monitor_round-raised above_90 above_75 ticks round m called))),
        raised-violations above_90 above_75 sound round.checked_at usage m.limits,
        length-raised above_90 above_75 round.checked_at usage m.limits,
      )
