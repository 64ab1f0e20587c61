-- ===== src/Resource/Alerts/Raised.antt =====
-- check_alerts of sandbox/src/resource_monitor.cpp as a list of alerts, against get_violations.
use sandobox_cpp.Base.{
  ℕ, ◌<◌, ◌≤◌, ◌≡◌, sym, ap, ◌∙◌, Bytes, List, ◌++◌, length, map, length-append, append_assoc, ltb,
  ltb→lt, Bool, true, false, text, if◌then◌else◌, arith,
}
use sandobox_cpp.Resource.{
  ResourceLimits, ResourceUsage, ResourceAlert, ResourceMonitor, violation_if, critical, warning,
  read_usage, remember, violations,
}
use sandobox_cpp.Resource.Readings.{read_usage-pids}
use sandobox_cpp.Resource.Loop.{Round, emit_alert, check_alerts, monitor_round}
use sandobox_cpp.Resource.Alerts.{
  gist, tell, alert_if, emit_alert-if, tell-append, tell-alert_if, tell-memory, length-alert_if,
  length-memory, map-append,
}

module _ (above_90 above_75 : ℕ → ℕ → Bool) where
  abbrev memory_alerts : ℕ → ResourceUsage → ResourceLimits → List ResourceAlert
  memory_alerts now usage limits =
      if above_90 usage.memory_bytes limits.memory_bytes
      then alert_if true now critical (text "memory") (text "Memory usage critical")
          usage.memory_bytes limits.memory_bytes
      else alert_if (above_75 usage.memory_bytes limits.memory_bytes) now warning (text "memory")
          (text "Memory usage high") usage.memory_bytes limits.memory_bytes

  abbrev cpu_alerts : ℕ → ResourceUsage → ResourceLimits → List ResourceAlert
  cpu_alerts now usage limits =
      alert_if (ltb limits.cpu_percent usage.cpu_percent) now warning (text "cpu")
        (text "CPU usage exceeded") usage.cpu_percent limits.cpu_percent

  -- The alerts of a check, in a list.
  abbrev pub raised : ℕ → ResourceUsage → ResourceLimits → List ResourceAlert
  raised now usage limits = memory_alerts now usage limits ++ cpu_alerts now usage limits

  memory_step :
      (far high : Bool) (now : ℕ) (word word' : Bytes) (current limit : ℕ) (m : ResourceMonitor)
      → m.has_callback ≡ true
      → (if far
          then emit_alert now critical (text "memory") word current limit m
          else if high
          then emit_alert now warning (text "memory") word' current limit m
          else m)
        ≡ record m {
          emitted =
              m.emitted
              ++ (if far
                  then alert_if true now critical (text "memory") word current limit
                  else alert_if high now warning (text "memory") word' current limit);
        }
  memory_step true high now word word' current limit m called =
      emit_alert-if true now critical (text "memory") word current limit m called
  memory_step false high now word word' current limit m called =
      emit_alert-if high now warning (text "memory") word' current limit m called

  check_alerts-raised :
      (now : ℕ) (usage : ResourceUsage) (m : ResourceMonitor)
      → m.has_callback ≡ true
      → usage.pids_current ≡ 0
      → check_alerts above_90 above_75 now usage m
        ≡ record m { emitted = m.emitted ++ raised now usage m.limits }
  unfolding check_alerts
  check_alerts-raised now usage m called none_found =
      let quiet : ltb m.limits.pids_max usage.pids_current ≡ false = rw none_found (ground arith) in
      let sent = m.emitted ++ memory_alerts now usage m.limits in
      let first =
        memory_step (above_90 usage.memory_bytes m.limits.memory_bytes)
          (above_75 usage.memory_bytes m.limits.memory_bytes) now (text "Memory usage critical")
          (text "Memory usage high") usage.memory_bytes m.limits.memory_bytes m called in
      let second =
        emit_alert-if (ltb m.limits.cpu_percent usage.cpu_percent) now warning (text "cpu")
          (text "CPU usage exceeded") usage.cpu_percent m.limits.cpu_percent
          (record m { emitted = sent }) called in
      rw (quiet, first, second)
        (ap (λ all. record m { emitted = all }) (append_assoc m.emitted _ _))

  -- An alert is over its limit where a violation is.
  pub raised-violations :
      ((used limit : ℕ) → limit < used → above_90 used limit ≡ true)
      → (now : ℕ) (usage : ResourceUsage) (limits : ResourceLimits)
      → tell (raised now usage limits) ≡ map gist (violations limits usage)
  raised-violations sound now usage limits =
      tell-append (memory_alerts now usage limits) (cpu_alerts now usage limits)
      ∙ rw
          (
            tell-memory (above_90 usage.memory_bytes limits.memory_bytes)
                (above_75 usage.memory_bytes limits.memory_bytes) now (text "Memory usage critical")
                (text "Memory usage high") (text "Memory limit exceeded") usage.memory_bytes
                limits.memory_bytes (λ over. sound _ _ (ltb→lt _ _ over)),
            tell-alert_if (ltb limits.cpu_percent usage.cpu_percent) now warning (text "cpu")
                (text "CPU usage exceeded") (text "CPU limit exceeded") usage.cpu_percent
                limits.cpu_percent (λ over. over),
          )
          (sym (
            map-append gist
              (violation_if (ltb limits.memory_bytes usage.memory_bytes) critical (text "memory")
                (text "Memory limit exceeded") usage.memory_bytes limits.memory_bytes)
              (violation_if (ltb limits.cpu_percent usage.cpu_percent) warning (text "cpu")
                (text "CPU limit exceeded") usage.cpu_percent limits.cpu_percent)))

  pub length-raised :
      (now : ℕ) (usage : ResourceUsage) (limits : ResourceLimits)
      → length (raised now usage limits) ≤ 2
  length-raised now usage limits = omega (
    arith,
    length-append (memory_alerts now usage limits) (cpu_alerts now usage limits),
    length-memory (above_90 usage.memory_bytes limits.memory_bytes)
        (above_75 usage.memory_bytes limits.memory_bytes) now (text "Memory usage critical")
        (text "Memory usage high") usage.memory_bytes limits.memory_bytes,
    length-alert_if (ltb limits.cpu_percent usage.cpu_percent) now warning (text "cpu")
        (text "CPU usage exceeded") usage.cpu_percent limits.cpu_percent,
  )

  -- The monitor after a round.
  abbrev pub rounded : ℕ → Round → ResourceMonitor → ResourceMonitor
  rounded ticks round m =
      let (usage, total) = read_usage ticks round.proc m.prev_cpu_time in
      record m {
        prev_cpu_time = total;
        history = remember (record { usage = usage; timestamp = round.recorded_at }) m.history;
        emitted = m.emitted ++ raised round.checked_at usage m.limits;
      }

  pub monitor_round-raised :
      (ticks : ℕ) (round : Round) (m : ResourceMonitor)
      → m.has_callback ≡ true
      → monitor_round above_90 above_75 ticks round m ≡ rounded ticks round m
  unfolding monitor_round
  monitor_round-raised ticks round m called =
      let reading = read_usage ticks round.proc m.prev_cpu_time in
      check_alerts-raised round.checked_at reading.0
        (record m {
          prev_cpu_time = reading.1;
          history =
              remember (record { usage = reading.0; timestamp = round.recorded_at }) m.history;
        })
        called (read_usage-pids ticks m.prev_cpu_time round.proc)
