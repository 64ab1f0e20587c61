-- ===== src/Resource/Tests.antt =====
-- The theorems on the resource monitor at concrete inputs.
use sandobox_cpp.Base.{
  digits, ◌<◌, ◌≤◌, ◌++◌, map, filter, lt→ltb, false, insert, lookup, arith, ℕ, ◌≡◌, ◌%◌, ◌*◌, ◌^◌,
  refl, min, Bytes, List, [], ◌∷◌, ltb, length, last_n, true, Bool, none, some, text, bytes_eq,
  Assoc,
}
use sandobox_cpp.Resource.{
  ResourceLimits, ResourceMonitor, Proc, fresh_monitor, read_usage, get_violations, get_history,
  ResourceAlert, on_alert,
}
use sandobox_cpp.Resource.Scan.{extract, skip_tokens, skip_word, sign}
use sandobox_cpp.Resource.Loop.{Round, monitor_rounds}
use sandobox_cpp.Resource.History.{readings, get_history_window}
use sandobox_cpp.Resource.Alerts.{gist, is_over}
use sandobox_cpp.Resource.Manager.{
  ResourceManager, fresh_manager, add_monitor, get_monitor, on_any_alert, destroy, watch_one,
  get_global_stats,
}
use sandobox_cpp.Resource.Manager.Reports.{watch_one_reports}
use sandobox_cpp.Resource.Manager.Steps.{Step, starts, reads, IsWatched, AllStopped, apply_all}
use sandobox_cpp.Resource.Manager.Watch.{apply_all_watches}
use sandobox_cpp.Resource.Manager.Totals.{memory_sum}
use sandobox_cpp.Resource.Manager.Unordered.{stats_of, get_global_stats_unordered}
use mathlib.Core.List.Perm
use mathlib.Core.Quot

abbrev stat_line : Bytes
stat_line = text "7 (sh) S 1 7 7 0 -1 4194304 100 0 0 0 25 5 0 0"

abbrev proc : Proc
proc = record {
  status = some (text "VmRSS:   2048 kB" ∷ text "Threads: 4" ∷ []);
  stat = some stat_line;
  io = some (text "read_bytes: 10" ∷ text "write_bytes: 20" ∷ []);
  uptime = none;
}

abbrev limits : ResourceLimits
limits = record {
  memory_bytes = 1048576;
  cpu_percent = 50;
  pids_max = 2;
  disk_bytes = 0;
  network_rx_bps = 0;
  network_tx_bps = 0;
}

abbrev monitor : ResourceMonitor
monitor = fresh_monitor limits

abbrev above_90 : ℕ → ℕ → Bool
above_90 used limit = ltb (9 * limit) (10 * used)

abbrev above_75 : ℕ → ℕ → Bool
above_75 used limit = ltb (3 * limit) (4 * used)

abbrev rounds : List Round
rounds =
    record { proc = proc; recorded_at = 5; checked_at = 6 }
    ∷ record { proc = proc; recorded_at = 7; checked_at = 8 }
    ∷ []

get_history_window_example :
    get_history 1 (monitor_rounds above_90 above_75 100 rounds monitor)
    ≡ last_n (min 1 1000) (readings above_90 above_75 100 rounds monitor)
get_history_window_example = get_history_window above_90 above_75 100 1 rounds monitor refl

abbrev monitors : Assoc ResourceMonitor
monitors = (text "a", monitor) ∷ (text "b", monitor) ∷ []

abbrev other_order : Assoc ResourceMonitor
other_order = (text "b", monitor) ∷ (text "a", monitor) ∷ []

get_global_stats_unordered_example :
    let stats = (get_global_stats 100 (λ id. proc) (λ id. proc) other_order).0 in
    (stats ≡ stats_of 100 (λ id. proc) (λ id. proc) (Quot.mk monitors))
    × (stats.total_memory_used ≡ memory_sum 100 (λ id. proc) monitors % 2 ^ 64)
    × (stats.total_sandboxes ≡ length monitors % 2 ^ 64)
    × (stats.total_pids ≡ 0)
get_global_stats_unordered_example =
    get_global_stats_unordered 100 (λ id. proc) (λ id. proc) monitors other_order (Perm.swap _ _ _)

-- A manager that listens, with one monitor.
abbrev listening : ResourceManager
unfolding add_monitor insert
listening = on_any_alert (add_monitor false (text "a") limits fresh_manager).1

above_90_sound : (used limit : ℕ) → limit < used → above_90 used limit ≡ true
above_90_sound used limit h = lt→ltb (9 * limit) (10 * used) (omega arith)

abbrev started : ResourceMonitor
started = record (on_alert (fresh_monitor limits)) { running = true }

abbrev one_round : Round
one_round = record { proc = proc; recorded_at = 5; checked_at = 6 }

watch_one_reports_example :
    (new : List ResourceAlert) × ((watch_one above_90 above_75 100
        (text "a")
        one_round
        listening).reported
      ≡ listening.reported ++ map (λ alert. (text "a", alert)) new)
    × (map gist (filter is_over new) ≡ map gist (get_violations 100 proc started).0)
    × (length new ≤ 2)
unfolding listening lookup bytes_eq
watch_one_reports_example =
    watch_one_reports above_90 above_75 above_90_sound 100 (text "a") one_round listening started
      refl refl refl refl

abbrev calls : List Step
calls =
    Step.add false (text "a") limits
    ∷ Step.listen
    ∷ Step.round_of (text "a") one_round
    ∷ Step.add false (text "b") limits
    ∷ Step.add false (text "a") limits
    ∷ Step.through (text "a") (reads proc)
    ∷ Step.through (text "b") starts
    ∷ Step.global_stats (λ id. proc) (λ id. proc)
    ∷ Step.remove (text "b")
    ∷ []

apply_all_watches_example :
    let mgr = apply_all above_90 above_75 100 calls fresh_manager in
    let gone = destroy (λ id. false) mgr in
    ((id : Bytes) (m : ResourceMonitor) → get_monitor id mgr ≡ some m → IsWatched m)
    × (gone.monitors ≡ [])
    × AllStopped gone.released
apply_all_watches_example =
    apply_all_watches above_90 above_75 100 calls
      (refl, (tt, (tt, (refl, (refl, (tt, (tt, (tt, (tt, tt)))))))))

reading_test :
    ((read_usage 100 proc 0).0.memory_bytes ≡ 2097152)
    × ((read_usage 100 proc 0).0.cpu_percent ≡ 30)
unfolding read_usage extract skip_tokens skip_word digits sign bytes_eq
reading_test = (refl, refl)
