-- ===== src/Resource/Loop.antt =====
-- check_alerts and a round of monitor_loop. The comparisons of the doubles, that the quotient of
-- the usage and the limit is above 0.9 and above 0.75, are arguments.
use sandobox_cpp.Base.{ℕ, Bytes, List, [], ◌∷◌, ◌++◌, ltb, Bool, if◌then◌else◌, text}
use sandobox_cpp.Resource.{
  ResourceUsage, ResourceMonitor, Level, critical, warning, Proc, read_usage, remember,
}

abbrev pub emit_alert : ℕ → Level → Bytes → Bytes → ℕ → ℕ → ResourceMonitor → ResourceMonitor
emit_alert now level resource message current limit m =
    if m.has_callback
    then record m {
      emitted =
          m.emitted
          ++ record {
            level = level;
            resource = resource;
            message = message;
            current_value = current;
            limit_value = limit;
            timestamp = now;
          }
            ∷ [];
    }
    else m

-- The clock when the reading is recorded and when it is checked, and /proc at the reading.
pub record Round : Type 0 where
  pub proc : Proc
  pub recorded_at : ℕ
  pub checked_at : ℕ

module _ (above_90 above_75 : ℕ → ℕ → Bool) where
  unfoldable pub check_alerts : ℕ → ResourceUsage → ResourceMonitor → ResourceMonitor
  check_alerts now usage m =
      let memory =
        if above_90 usage.memory_bytes m.limits.memory_bytes
        then emit_alert now critical (text "memory") (text "Memory usage critical")
            usage.memory_bytes m.limits.memory_bytes m
        else if above_75 usage.memory_bytes m.limits.memory_bytes
        then emit_alert now warning (text "memory") (text "Memory usage high") usage.memory_bytes
            m.limits.memory_bytes m
        else m in
      let cpu =
        if ltb m.limits.cpu_percent usage.cpu_percent
        then emit_alert now warning (text "cpu") (text "CPU usage exceeded") usage.cpu_percent
            m.limits.cpu_percent memory
        else memory in
      if ltb m.limits.pids_max usage.pids_current
      then emit_alert now critical (text "pids") (text "Process limit exceeded") usage.pids_current
          m.limits.pids_max cpu
      else cpu

  -- A round of monitor_loop, where `ticks` is sysconf(_SC_CLK_TCK).
  unfoldable pub monitor_round : ℕ → Round → ResourceMonitor → ResourceMonitor
  unfolding check_alerts
  monitor_round ticks round m =
      let (usage, total) = read_usage ticks round.proc m.prev_cpu_time in
      check_alerts round.checked_at usage (record m {
        prev_cpu_time = total;
        history = remember (record { usage = usage; timestamp = round.recorded_at }) m.history;
      })

  unfoldable pub monitor_rounds : ℕ → List Round → ResourceMonitor → ResourceMonitor
  unfolding monitor_round
  monitor_rounds ticks [] m = m
  monitor_rounds ticks (round ∷ rounds) m =
      monitor_rounds ticks rounds (monitor_round ticks round m)
