-- ===== src/Resource/History.antt =====
-- The history of the readings.
use sandobox_cpp.Base.{
  Bool, ℕ, zero, suc, ◌+◌, ◌-◌, ◌≡◌, refl, sym, ap, ◌∙◌, List, [], ◌∷◌, ◌++◌, length, length-append,
  drop, drop_all, get_elem?-drop, ltb, Bool-cases, ltb→lt, not_ltb→le, last_n, last_n-nil,
  last_n_all, last_n-min, last_n-append, length-last_n, min, append_assoc, append-nil, inl, inr,
  arith,
}
use sandobox_cpp.Resource.Loop.{Round, check_alerts, monitor_round, monitor_rounds}
use sandobox_cpp.Resource.{
  ResourceUsage, read_usage, HistoryEntry, ResourceMonitor, remember, copy_history, get_history,
}

remember-last_n :
    (e : HistoryEntry) (all : List HistoryEntry)
    → remember e (last_n 1000 all) ≡ last_n 1000 (all ++ e ∷ [])
unfolding remember
remember-last_n e all =
    let longer : List HistoryEntry = last_n 1000 all ++ e ∷ [] in
    let size : length longer ≡ length (last_n 1000 all) + 1 =
      length-append {0} (last_n 1000 all) (e ∷ []) in
    elim (Bool-cases (ltb 1000 (length longer))) [
      | inl over ↦
          let one : length longer - 1000 ≡ 1 =
            omega (arith, size, length-last_n 1000 all, ltb→lt 1000 (length longer) over) in
          let cut : last_n 1000 longer ≡ drop 1 longer = unfold last_n in rw one refl in
          rw over (sym cut ∙ last_n-append 1000 all (e ∷ []))
      | inr fits ↦ rw fits (
          sym (last_n_all 1000 longer (not_ltb→le 1000 (length longer) fits))
          ∙ last_n-append 1000 all (e ∷ []))
    ]

copy_history-drop :
    (es : List HistoryEntry) (n i : ℕ) → i + n ≡ length es → copy_history es n i ≡ drop i es
unfolding copy_history
copy_history-drop es zero i e = sym (drop_all i es (omega arith))
copy_history-drop es (suc n) i e =
    let (x, got, rest) = get_elem?-drop i es (omega arith) in
    rw (got, copy_history, rest) (ap (◌∷◌ x) (copy_history-drop es n (i + 1) (omega arith)))

get_history-eq-last_n : (n : ℕ) (m : ResourceMonitor) → get_history n m ≡ last_n n m.history
unfolding get_history last_n
get_history-eq-last_n n m = elim (Bool-cases (ltb n (length m.history))) [
  | inl more ↦
      rw more (copy_history-drop m.history _ _ (omega (arith, ltb→lt n (length m.history) more)))
  | inr all ↦
      let whole : length m.history - n ≡ 0 = omega (arith, not_ltb→le n (length m.history) all) in
      rw all (rw whole (copy_history-drop m.history _ 0 (omega arith)))
]

module _ (above_90 above_75 : ℕ → ℕ → Bool) where
  -- What the rounds read, each with the time at which it is recorded.
  unfoldable pub readings : ℕ → List Round → ResourceMonitor → List HistoryEntry
  readings ticks [] m = []
  readings ticks (round ∷ rounds) m =
      record {
        usage = (read_usage ticks round.proc m.prev_cpu_time).0;
        timestamp = round.recorded_at;
      }
      ∷ readings ticks rounds (monitor_round above_90 above_75 ticks round m)

  check_alerts-history :
      (now : ℕ) (usage : ResourceUsage) (m : ResourceMonitor)
      → (check_alerts above_90 above_75 now usage m).history ≡ m.history
  unfolding check_alerts
  check_alerts-history now usage m = ground arith

  monitor_round-history :
      (ticks : ℕ) (round : Round) (m : ResourceMonitor)
      → (monitor_round above_90 above_75 ticks round m).history
        ≡ remember
            (record {
              usage = (read_usage ticks round.proc m.prev_cpu_time).0;
              timestamp = round.recorded_at;
            })
            m.history
  unfolding monitor_round
  monitor_round-history ticks round m =
      let usage = (read_usage ticks round.proc m.prev_cpu_time).0 in
      check_alerts-history round.checked_at usage (record m {
        prev_cpu_time = (read_usage ticks round.proc m.prev_cpu_time).1;
        history = remember (record { usage = usage; timestamp = round.recorded_at }) m.history;
      })

  monitor_rounds-history :
      (ticks : ℕ) (rounds : List Round) (m : ResourceMonitor) (all : List HistoryEntry)
      → m.history ≡ last_n 1000 all
      → (monitor_rounds above_90 above_75 ticks rounds m).history
        ≡ last_n 1000 (all ++ readings ticks rounds m)
  unfolding monitor_rounds readings
  monitor_rounds-history ticks [] m all h = h ∙ ap (last_n 1000) (sym (append-nil all))
  monitor_rounds-history ticks (round ∷ rounds) m all h =
      let next : ResourceMonitor = monitor_round above_90 above_75 ticks round m in
      let e : HistoryEntry = record {
        usage = (read_usage ticks round.proc m.prev_cpu_time).0;
        timestamp = round.recorded_at;
      } in
      let one : next.history ≡ last_n 1000 (all ++ e ∷ []) =
        monitor_round-history ticks round m ∙ (ap (remember e) h ∙ remember-last_n e all) in
      monitor_rounds-history ticks rounds next (all ++ e ∷ []) one
      ∙ ap (last_n 1000) (append_assoc all (e ∷ []) (readings ticks rounds next))

  -- After any rounds of the monitor, from an empty history, get_history gives the last readings in
  -- their order, as many as asked for, but at most 1000.
  pub get_history_window :
      (ticks n : ℕ) (rounds : List Round) (m : ResourceMonitor)
      → m.history ≡ []
      → get_history n (monitor_rounds above_90 above_75 ticks rounds m)
        ≡ last_n (min n 1000) (readings ticks rounds m)
  get_history_window ticks n rounds m h =
      get_history-eq-last_n n (monitor_rounds above_90 above_75 ticks rounds m)
      ∙ (ap (last_n n) (monitor_rounds-history ticks rounds m [] (h ∙ sym (last_n-nil 1000)))
          ∙ last_n-min n 1000 (readings ticks rounds m))
