-- ===== src/Resource/Manager/Unordered.antt =====
-- get_global_stats of sandbox/src/resource_monitor.cpp and the order in which std::unordered_map is gone
-- through, which nothing fixes.
use mathlib.Core.Logic.{∥∥₁_elim}
use mathlib.Core.List.{Perm, Permᴰ}
use mathlib.Core.Quot
use mathlib.Core.Quot.{Quot}
use sandobox_cpp.Resource.Manager.Totals.{memory_sum, get_global_stats_sums}
use sandobox_cpp.Base.{
  length, ℕ, ◌+◌, ◌%◌, ◌^◌, ◌≡◌, refl, sym, ap, ◌∙◌, Bytes, ◌∷◌, Bool, true, false, Assoc, arith,
}
use sandobox_cpp.Resource.{ResourceUsage, ResourceMonitor, Proc, get_usage, is_over_limit}
use sandobox_cpp.Resource.Manager.{
  GlobalStats, no_stats, add_usage, collect_stats, get_global_stats,
}

GlobalStats-set : IsSet GlobalStats
GlobalStats-set = hlevel

-- Two monitors can be added in either order.
add_usage_comm :
    (u v : ResourceUsage) (b c : Bool) (stats : GlobalStats)
    → add_usage u b (add_usage v c stats) ≡ add_usage v c (add_usage u b stats)
unfolding add_usage
add_usage_comm u v b c stats = λ i. record {
  total_memory_used = memory i;
  total_cpu_percent = cpu i;
  total_pids = pids i;
  total_sandboxes = (((stats.total_sandboxes + 1) % 2 ^ 64) + 1) % 2 ^ 64;
  sandboxes_over_limit = over b c i;
}
  where
    memory :
        ((stats.total_memory_used + v.memory_bytes) % 2 ^ 64 + u.memory_bytes) % 2 ^ 64
        ≡ ((stats.total_memory_used + u.memory_bytes) % 2 ^ 64 + v.memory_bytes) % 2 ^ 64
    memory = omega arith

    cpu :
        ((stats.total_cpu_percent + v.cpu_percent) % 2 ^ 32 + u.cpu_percent) % 2 ^ 32
        ≡ ((stats.total_cpu_percent + u.cpu_percent) % 2 ^ 32 + v.cpu_percent) % 2 ^ 32
    cpu = omega arith

    pids :
        ((stats.total_pids + v.pids_current) % 2 ^ 32 + u.pids_current) % 2 ^ 32
        ≡ ((stats.total_pids + u.pids_current) % 2 ^ 32 + v.pids_current) % 2 ^ 32
    pids = omega arith

    over :
        (b c : Bool)
        → (add_usage u b (add_usage v c stats)).sandboxes_over_limit
          ≡ (add_usage v c (add_usage u b stats)).sandboxes_over_limit
    over true true = refl
    over true false = refl
    over false true = refl
    over false false = refl

module _ (ticks : ℕ) (first second : Bytes → Proc) where
  abbrev total : GlobalStats → Assoc ResourceMonitor → GlobalStats
  total stats monitors = (collect_stats ticks first second stats monitors).0

  -- One monitor, added to the sums.
  abbrev added : Bytes × ResourceMonitor → GlobalStats → GlobalStats
  added (id, m) stats =
      let (usage, m₁) = get_usage ticks (first id) m in
      add_usage usage (is_over_limit ticks (second id) m₁).0 stats

  total-cons :
      (a : Bytes × ResourceMonitor) (rest : Assoc ResourceMonitor) (stats : GlobalStats)
      → total stats (a ∷ rest) ≡ total (added a stats) rest
  unfolding collect_stats
  total-cons (id, m) rest stats = refl

  total-swap :
      (a b : Bytes × ResourceMonitor) (rest : Assoc ResourceMonitor) (stats : GlobalStats)
      → total stats (a ∷ b ∷ rest) ≡ total stats (b ∷ a ∷ rest)
  total-swap a b rest stats =
      total-cons a (b ∷ rest) stats
      ∙ (total-cons b rest (added a stats)
          ∙ (ap (λ s. total s rest) (add_usage_comm _ _ _ _ stats)
              ∙ (sym (total-cons a rest (added b stats)) ∙ sym (total-cons b (a ∷ rest) stats))))

  total-Permᴰ :
      {a b : Assoc ResourceMonitor}
      → Permᴰ a b
      → (stats : GlobalStats) → total stats a ≡ total stats b
  total-Permᴰ Permᴰ.nil stats = refl
  total-Permᴰ (Permᴰ.cons {a = a} {b = b} {l₁ = l₁} {l₂ = l₂} e d) stats =
      ap (λ x. total stats (x ∷ l₁)) e
      ∙ (total-cons b l₁ stats ∙ (total-Permᴰ d (added b stats) ∙ sym (total-cons b l₂ stats)))
  total-Permᴰ (Permᴰ.swap {a = a} {b = b} {a' = a'} {b' = b'} {l = l} e e') stats =
      ap (λ x. total stats (x ∷ b ∷ l)) e
      ∙ (ap (λ x. total stats (b' ∷ x ∷ l)) e' ∙ total-swap b' a' l stats)
  total-Permᴰ (Permᴰ.trans d d') stats = total-Permᴰ d stats ∙ total-Permᴰ d' stats

  total-Perm :
      (monitors monitors' : Assoc ResourceMonitor)
      → Perm monitors monitors'
      → (get_global_stats ticks first second monitors).0
        ≡ (get_global_stats ticks first second monitors').0
  unfolding get_global_stats
  total-Perm monitors monitors' same =
      ∥∥₁_elim same (GlobalStats-set _ _) (λ d. total-Permᴰ d no_stats)

  -- The statistics as a function of the map itself, which has no order.
  abbrev pub Monitors : Type 0
  Monitors = Quot (Perm {A = Bytes × ResourceMonitor})

  pub stats_of : Monitors → GlobalStats
  stats_of =
      Quot.lift GlobalStats-set (λ monitors. (get_global_stats ticks first second monitors).0)
        total-Perm

  -- In whatever order the entries of the map come, the statistics are the same, a function of the map
  -- without its order: the memory in use of all sandboxes added up modulo 2 ^ 64, the number of
  -- sandboxes modulo 2 ^ 64, and always 0 processes.
  pub get_global_stats_unordered :
      (monitors order : Assoc ResourceMonitor)
      → Perm order monitors
      → let stats = (get_global_stats ticks first second order).0 in
        (stats ≡ stats_of (Quot.mk monitors))
        × (stats.total_memory_used ≡ memory_sum ticks first monitors % 2 ^ 64)
        × (stats.total_sandboxes ≡ length monitors % 2 ^ 64)
        × (stats.total_pids ≡ 0)
  unfolding stats_of
  get_global_stats_unordered monitors order same =
      let alike = total-Perm order monitors same in
      let (memory, count, pids) = get_global_stats_sums ticks first second monitors in
      (
        alike,
        ap (λ t. t.total_memory_used) alike ∙ memory,
        ap (λ t. t.total_sandboxes) alike ∙ count,
        ap (λ t. t.total_pids) alike ∙ pids,
      )
