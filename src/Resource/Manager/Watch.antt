-- ===== src/Resource/Manager/Watch.antt =====
-- What ResourceManager of sandbox/src/resource_monitor.cpp keeps under any calls and rounds.
use sandobox_cpp.Base.{
  ℕ, ◌≡◌, refl, Bytes, List, [], ◌∷◌, ◌++◌, Bool, Bool-cases, inl, inr, true, false, Option, none,
  some, Option-cases, Assoc, lookup, insert, erase, bytes_eq, if◌then◌else◌, subst, sym,
}
use sandobox_cpp.Resource.{
  ResourceAlert, ResourceMonitor, Proc, set_limit, start, stop, is_over_limit, get_usage,
}
use sandobox_cpp.Resource.Loop.{Round, monitor_round}
use sandobox_cpp.Resource.Alerts.Raised.{monitor_round-raised}
use sandobox_cpp.Resource.Manager.{
  ResourceManager, fresh_manager, let_go, replaced, add_monitor, remove_monitor, get_monitor,
  let_all_go, destroy, forward, watch, watch_one, GlobalStats, collect_stats, get_global_stats,
  no_stats, get_all_usage,
}
use sandobox_cpp.Resource.Manager.Steps.{
  Use, starts, stops, reads, limits_to, use_monitor, through, Step, add, remove, listen, all_usage,
  global_stats, round_of, IsWatched, AllWatched, AllStopped, HoldsNone, NoneHeld, IsSound, apply,
  apply_all,
}

AllStopped-append :
    (ms ns : List ResourceMonitor) → AllStopped ms → AllStopped ns → AllStopped (ms ++ ns)
AllStopped-append [] ns h g = g
AllStopped-append (m ∷ ms) ns (off, h) g = (off, AllStopped-append ms ns h g)

stop-off : (m : ResourceMonitor) → (stop m).1.running ≡ false
unfolding stop
stop-off m = elim (Bool-cases m.running) [
  | inl on ↦ rw (on, stop) refl
  | inr off ↦ rw (off, stop) refl
]

insert-AllWatched :
    (id : Bytes) (m : ResourceMonitor) (monitors : Assoc ResourceMonitor)
    → IsWatched m
    → AllWatched monitors
    → AllWatched (insert id m monitors)
unfolding insert
insert-AllWatched id m [] h all = (h, tt)
insert-AllWatched id m ((j, w) ∷ rest) h all = elim (Bool-cases (bytes_eq j id)) [
  | inl e ↦ rw (e, insert) (h, all.1)
  | inr e ↦ rw (e, insert) (all.0, insert-AllWatched id m rest h all.1)
]

erase-AllWatched :
    (id : Bytes) (monitors : Assoc ResourceMonitor)
    → AllWatched monitors
    → AllWatched (erase id monitors)
unfolding erase
erase-AllWatched id [] all = tt
erase-AllWatched id ((j, w) ∷ rest) all = elim (Bool-cases (bytes_eq j id)) [
  | inl e ↦ rw (e, erase) (erase-AllWatched id rest all.1)
  | inr e ↦ rw (e, erase) (all.0, erase-AllWatched id rest all.1)
]

found_within :
    (here : Bool) (w m : ResourceMonitor) {there : Option ResourceMonitor}
    → IsWatched w
    → (there ≡ some m → IsWatched m)
    → (if here then some w else there) ≡ some m
    → IsWatched m
found_within true w m h rest e = let same : w ≡ m = cc e in subst IsWatched same h
found_within false w m h rest e = rest e

pub lookup-IsWatched :
    (id : Bytes) (monitors : Assoc ResourceMonitor) (m : ResourceMonitor)
    → AllWatched monitors
    → lookup id monitors ≡ some m
    → IsWatched m
unfolding lookup
lookup-IsWatched id [] m all e = cc e
lookup-IsWatched id ((j, w) ∷ rest) m all e =
    found_within (bytes_eq j id) w m all.0 (lookup-IsWatched id rest m all.1) e

module _ (above_90 above_75 : ℕ → ℕ → Bool) (ticks : ℕ) where
  monitor_round-IsWatched :
      (round : Round) (m : ResourceMonitor)
      → IsWatched m
      → IsWatched (monitor_round above_90 above_75 ticks round m)
  monitor_round-IsWatched round m h =
      subst IsWatched (sym (monitor_round-raised above_90 above_75 ticks round m h.1)) h

  collect_stats-AllWatched :
      (first second : Bytes → Proc) (monitors : Assoc ResourceMonitor) (stats : GlobalStats)
      → AllWatched monitors
      → AllWatched (collect_stats ticks first second stats monitors).1
  unfolding collect_stats get_usage is_over_limit
  collect_stats-AllWatched first second [] stats all = tt
  collect_stats-AllWatched first second ((id, m) ∷ rest) stats all =
      (all.0, collect_stats-AllWatched first second rest _ all.1)

  get_all_usage-AllWatched :
      (first second : Bytes → Proc) (monitors : Assoc ResourceMonitor)
      → AllWatched monitors
      → AllWatched (get_all_usage ticks first second monitors).1
  unfolding get_all_usage get_usage is_over_limit
  get_all_usage-AllWatched first second [] all = tt
  get_all_usage-AllWatched first second ((id, m) ∷ rest) all =
      (all.0, get_all_usage-AllWatched first second rest all.1)

  replaced-AllStopped :
      (old : Option ResourceMonitor) (released : List ResourceMonitor)
      → AllStopped released
      → AllStopped (replaced false old released)
  unfolding replaced let_go
  replaced-AllStopped none released h = h
  replaced-AllStopped (some m) released h = AllStopped-append released _ h (stop-off m, tt)

  forward-IsSound :
      (id : Bytes) (alerts : List ResourceAlert) (mgr : ResourceManager)
      → IsSound mgr
      → IsSound (forward id alerts mgr)
  unfolding forward
  forward-IsSound id alerts mgr h = elim (Bool-cases mgr.has_global_callback) [
    | inl heard ↦ rw (heard, forward) h
    | inr deaf ↦ rw (deaf, forward) h
  ]

  if-IsSound :
      (b : Bool) (mgr mgr' : ResourceManager)
      → IsSound mgr
      → IsSound mgr'
      → IsSound (if b then mgr else mgr')
  if-IsSound true mgr mgr' h g = h
  if-IsSound false mgr mgr' h g = g

  watch-IsSound :
      (id : Bytes) (round : Round) (m : ResourceMonitor) (mgr : ResourceManager)
      → IsWatched m
      → IsSound mgr
      → IsSound (watch above_90 above_75 ticks id round m mgr)
  unfolding watch
  watch-IsSound id round m mgr watched h =
      if-IsSound m.running _ mgr
        (forward-IsSound id _ _
          (insert-AllWatched id _ mgr.monitors (monitor_round-IsWatched round m watched) h.0, h.1))
        h

  use_monitor-IsWatched :
      (id : Bytes) (how : Use) (m : ResourceMonitor)
      → HoldsNone (through id how)
      → IsWatched m
      → IsWatched (use_monitor ticks how m)
  unfolding use_monitor start get_usage set_limit
  use_monitor-IsWatched id starts m free h = rw h.0 (refl, h.1)
  use_monitor-IsWatched id (limits_to limits) m free h = h
  use_monitor-IsWatched id (reads proc) m free h = h
  use_monitor-IsWatched id stops m free h = absurd free

  apply-IsSound :
      (step : Step) (mgr : ResourceManager)
      → HoldsNone step
      → IsSound mgr
      → IsSound (apply above_90 above_75 ticks step mgr)
  unfolding apply get_monitor add_monitor remove_monitor get_global_stats watch_one
  apply-IsSound (add held id limits) mgr free h = rw free (
    insert-AllWatched id _ mgr.monitors (refl, refl) h.0,
    replaced-AllStopped (lookup id mgr.monitors) mgr.released h.1,
  )
  apply-IsSound (remove id) mgr _ h = elim (Option-cases (lookup id mgr.monitors)) [
    | inl e ↦ rw (e, apply) h
    | inr (m, e) ↦
        rw (e, apply)
          (
            erase-AllWatched id mgr.monitors h.0,
            AllStopped-append mgr.released _ h.1 (stop-off m, tt),
          )
  ]
  apply-IsSound listen mgr _ h = h
  apply-IsSound (all_usage first second) mgr _ h =
      (get_all_usage-AllWatched first second mgr.monitors h.0, h.1)
  apply-IsSound (global_stats first second) mgr _ h =
      (collect_stats-AllWatched first second mgr.monitors no_stats h.0, h.1)
  apply-IsSound (through id how) mgr free h = elim (Option-cases (lookup id mgr.monitors)) [
    | inl e ↦ rw (e, apply) h
    | inr (m, e) ↦
        rw (e, apply)
          (
            insert-AllWatched id _ mgr.monitors
                (use_monitor-IsWatched id how m free (lookup-IsWatched id mgr.monitors m h.0 e))
                h.0,
            h.1,
          )
  ]
  apply-IsSound (round_of id round) mgr _ h = elim (Option-cases (lookup id mgr.monitors)) [
    | inl e ↦ rw (e, watch_one) h
    | inr (m, e) ↦
        rw (e, watch_one)
          (watch-IsSound id round m mgr (lookup-IsWatched id mgr.monitors m h.0 e) h)
  ]

  let_all_go-AllStopped :
      (monitors : Assoc ResourceMonitor) → AllStopped (let_all_go (λ id. false) monitors)
  unfolding let_all_go let_go
  let_all_go-AllStopped [] = tt
  let_all_go-AllStopped ((id, m) ∷ rest) = (stop-off m, let_all_go-AllStopped rest)

  apply_all-IsSound :
      (steps : List Step) (mgr : ResourceManager)
      → NoneHeld steps
      → IsSound mgr
      → IsSound (apply_all above_90 above_75 ticks steps mgr)
  unfolding apply_all
  apply_all-IsSound [] mgr free h = h
  apply_all-IsSound (step ∷ steps) mgr free h =
      apply_all-IsSound steps (apply above_90 above_75 ticks step mgr) free.1
        (apply-IsSound step mgr free.0 h)

  -- After any calls on the manager, calls on monitors of its map by get_monitor, and rounds, in which no
  -- caller of get_monitor holds a monitor that is replaced, stops one or sets its callback: a monitor that
  -- is found under an id is running and reports to the manager, and once the manager is destroyed, with no
  -- monitor held, it has none left and each that it let go of is stopped.
  pub apply_all_watches :
      (steps : List Step)
      → NoneHeld steps
      → let mgr = apply_all above_90 above_75 ticks steps fresh_manager in
        let gone = destroy (λ id. false) mgr in
        ((id : Bytes) (m : ResourceMonitor) → get_monitor id mgr ≡ some m → IsWatched m)
        × (gone.monitors ≡ [])
        × AllStopped gone.released
  unfolding destroy get_monitor
  apply_all_watches steps free =
      let h = apply_all-IsSound steps fresh_manager free (tt, tt) in
      let monitors = (apply_all above_90 above_75 ticks steps fresh_manager).monitors in
      (
        λ id m found. lookup-IsWatched id monitors m h.0 found,
        refl,
        AllStopped-append _ _ h.1 (let_all_go-AllStopped monitors),
      )
