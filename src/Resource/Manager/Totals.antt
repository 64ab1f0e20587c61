-- ===== src/Resource/Manager/Totals.antt =====
-- The statistics of ResourceManager, in sandbox/src/resource_monitor.cpp.
use sandobox_cpp.Base.{ℕ, ◌+◌, ◌%◌, ◌^◌, ◌≡◌, refl, Bytes, [], ◌∷◌, length, Bool, Assoc, ◌<◌, arith}
use sandobox_cpp.Resource.{
  ResourceUsage, ResourceMonitor, Proc, read_usage, get_usage, is_over_limit,
}
use sandobox_cpp.Resource.Readings.{read_usage-pids}
use sandobox_cpp.Resource.Manager.{
  GlobalStats, no_stats, add_usage, collect_stats, get_global_stats,
}

-- The memory in use by all sandboxes, added up without a bound.
unfoldable pub memory_sum : ℕ → (Bytes → Proc) → Assoc ResourceMonitor → ℕ
memory_sum ticks first [] = 0
memory_sum ticks first ((id, m) ∷ rest) =
    (read_usage ticks (first id) m.prev_cpu_time).0.memory_bytes + memory_sum ticks first rest

collect_stats-sums :
    (ticks : ℕ) (first second : Bytes → Proc) (stats : GlobalStats)
    (monitors : Assoc ResourceMonitor)
    → stats.total_memory_used < 2 ^ 64
    → stats.total_sandboxes < 2 ^ 64
    → stats.total_pids ≡ 0
    → let total = (collect_stats ticks first second stats monitors).0 in
      (total.total_memory_used
        ≡ (stats.total_memory_used + memory_sum ticks first monitors) % 2 ^ 64)
      × (total.total_sandboxes ≡ (stats.total_sandboxes + length monitors) % 2 ^ 64)
      × (total.total_pids ≡ 0)
unfolding collect_stats memory_sum get_usage is_over_limit add_usage
collect_stats-sums ticks first second stats [] hm hs hp = (omega arith, omega arith, hp)
collect_stats-sums ticks first second stats ((id, m) ∷ rest) hm hs hp =
    let usage : ResourceUsage = (read_usage ticks (first id) m.prev_cpu_time).0 in
    let over : Bool = (is_over_limit ticks (second id) (get_usage ticks (first id) m).1).0 in
    let none_found : usage.pids_current ≡ 0 = read_usage-pids ticks m.prev_cpu_time (first id) in
    let r =
      collect_stats-sums ticks first second (add_usage usage over stats) rest (omega arith)
        (omega arith) (omega (arith, none_found, hp)) in
    (omega (arith, r.0), omega (arith, r.1), r.2)

-- The global statistics of the manager: the memory in use of all sandboxes added up modulo 2 ^ 64, the
-- number of sandboxes modulo 2 ^ 64, and always 0 processes.
pub get_global_stats_sums :
    (ticks : ℕ) (first second : Bytes → Proc) (monitors : Assoc ResourceMonitor)
    → let total = (get_global_stats ticks first second monitors).0 in
      (total.total_memory_used ≡ memory_sum ticks first monitors % 2 ^ 64)
      × (total.total_sandboxes ≡ length monitors % 2 ^ 64)
      × (total.total_pids ≡ 0)
unfolding get_global_stats
get_global_stats_sums ticks first second monitors =
    let r =
      collect_stats-sums ticks first second no_stats monitors (omega arith) (omega arith) refl in
    (omega (arith, r.0), omega (arith, r.1), r.2)
