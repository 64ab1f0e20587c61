-- ===== src/Supervisor/Invariant.antt =====
-- What holds of every entry between the calls of the supervisor.
use sandobox_cpp.Base.{
  ◌≡◌, refl, subst, ◌+◌, ℕ, ℤ, pos, negsuc, Bytes, [], true, false, not, ◌&&◌, lookup, insert,
  erase, lookup-insert, lookup-erase, bytes_eq, bytes_eq→eq, bytes_eq_refl, none, some,
  Option-cases, Bool-cases, inl, inr, arith, Assoc, ltb, ◌==◌,
}
use sandobox_cpp.Supervisor.Types.{
  Supervisor, ProcessEntry, Status, starting, restarting, running, Monitor, absent, looping,
  returned, EventType,
}
use sandobox_cpp.Supervisor.Act.{blocked, terminated, Act, then_do, pure, the_entry, emit_event}
use sandobox_cpp.Supervisor.Rules.{Holds, Holds-bind, Holds-if, Holds-if_act}
use sandobox_cpp.Supervisor.Process.{
  Thread, Fork, fork_fails, forks, join_monitor, spawn_process, restart_or_fail, handle_exit,
  may_restart, wexitstatus,
}

-- STARTING and RESTARTING are passed through, never rested in.
abbrev pub AtRest : Status → Type 0
AtRest starting = ⊥
AtRest restarting = ⊥
AtRest _ = Unit

-- A running process has been given a monitor thread.
abbrev pub IsWatched : Status → Monitor → Type 0
IsWatched running absent = ⊥
IsWatched _ _ = Unit

-- The count of restarts is cleared by every spawn_process.
pub record IsSound (name : Bytes) (e : ProcessEntry) : Type 0 where
  pub named : e.config.name ≡ name
  pub counted : e.state.restart_count ≡ 0
  pub rests : AtRest e.state.status
  pub watched : IsWatched e.state.status e.monitor

pub record AllSound (m : Assoc ProcessEntry) : Type 0 where
  pub at : (j : Bytes) (e : ProcessEntry) → lookup j m ≡ some e → IsSound j e

-- All entries but one.
pub record OthersSound (name : Bytes) (m : Assoc ProcessEntry) : Type 0 where
  pub at :
      (j : Bytes) (e : ProcessEntry) → bytes_eq name j ≡ false → lookup j m ≡ some e → IsSound j e

pub others : (name : Bytes) (m : Assoc ProcessEntry) → AllSound m → OthersSound name m
others name m h = record { at = λ j e _ found. h.at j e found }

pub insert_others :
    (name : Bytes) (e : ProcessEntry) (m : Assoc ProcessEntry)
    → OthersSound name m
    → OthersSound name (insert name e m)
insert_others name e m h = record {
  at = λ j x other found.
      let below : lookup j m ≡ some x = rw other at (rw lookup-insert at found) in
      h.at j x other below;
}

pub insert_sound :
    (name : Bytes) (e : ProcessEntry) (m : Assoc ProcessEntry)
    → OthersSound name m
    → IsSound name e
    → AllSound (insert name e m)
insert_sound name e m h s = record {
  at = λ j x found. elim (Bool-cases (bytes_eq name j)) [
    | inl same ↦
        let this : some e ≡ some x = rw same at (rw lookup-insert at found) in
        let name_e : name ≡ j = bytes_eq→eq name j same in
        subst (λ k. IsSound k x) name_e (subst (IsSound name) (cc) s)
    | inr other ↦
        let below : lookup j m ≡ some x = rw other at (rw lookup-insert at found) in
        h.at j x other below
  ];
}

pub erase_sound : (name : Bytes) (m : Assoc ProcessEntry) → AllSound m → AllSound (erase name m)
erase_sound name m h = record {
  at = λ j x found. elim (Bool-cases (bytes_eq name j)) [
    | inl same ↦ let gone : none ≡ some x = rw same at (rw lookup-erase at found) in cc
    | inr other ↦
        let below : lookup j m ≡ some x = rw other at (rw lookup-erase at found) in h.at j x below
  ];
}

abbrev pub Sound {ℓ} : {A : Type ℓ} → A → Supervisor → Type 0
Sound a s = AllSound s.processes

join_monitor_keeps :
    (thread : Thread) (name : Bytes) (m : Monitor) (s : Supervisor)
    → Holds (λ _ t. t ≡ s) (join_monitor thread name m s)
unfolding join_monitor
join_monitor_keeps thread name absent s = refl
join_monitor_keeps thread name returned s = refl
join_monitor_keeps Thread.client name looping s = tt
join_monitor_keeps Thread.watchdog name looping s = tt
join_monitor_keeps (Thread.monitor_of own) name looping s =
    Holds-if {A = Unit {0}} (λ _ t. t ≡ s) (bytes_eq own name) terminated blocked (λ _. tt)
      (λ _. tt)

pub emit_event_keeps :
    (now : ℕ) (type : EventType) (name : Bytes) (pid : ℤ) (code : ℕ) (msg : Bytes) (s : Supervisor)
    → Holds (λ _ t. t.processes ≡ s.processes) (emit_event now type name pid code msg s)
unfolding emit_event
emit_event_keeps now type name pid code msg s =
    Holds-if {A = Unit {0}} (λ _ t. t.processes ≡ s.processes) s.has_callback _ _ (λ _. refl)
      (λ _. refl)

-- An event changes no entry.
pub emit_then :
    {B : Type 0} (now : ℕ) (type : EventType) (name : Bytes) (pid : ℤ) (code : ℕ) (msg : Bytes)
    (s : Supervisor) (Q : B → Supervisor → Type 0) (f : Unit {0} → Act B)
    → ((u : Supervisor) → u.processes ≡ s.processes → Holds Q (f tt u))
    → Holds Q (then_do (emit_event now type name pid code msg s) f)
emit_then now type name pid code msg s Q f k =
    Holds-bind (λ _ u. u.processes ≡ s.processes) Q (emit_event now type name pid code msg s) f
      (emit_event_keeps now type name pid code msg s) (λ _ u same. k u same)

-- spawn_process settles an entry that was between two states.
pub spawn_process-Sound :
    (thread : Thread) (fork : Fork) (name : Bytes) (s : Supervisor) (e : ProcessEntry)
    → OthersSound name s.processes
    → lookup name s.processes ≡ some e
    → e.config.name ≡ name
    → Holds Sound (spawn_process thread fork name s)
unfolding spawn_process
spawn_process-Sound thread (fork_fails reason) name s e h found named =
    rw (found, the_entry)
      (insert_sound name _ s.processes h
        (record { named = named; counted = omega arith; rests = tt; watched = tt }))
spawn_process-Sound thread (forks pid now) name s e h found named =
    let spawned : ProcessEntry = record e {
      state = record e.state {
        status = running;
        restart_count = 0;
        pid = pos pid;
        start_time = now;
      };
      running = true;
    } in
    let watched : ProcessEntry = record spawned { monitor = looping } in
    let s₁ : Supervisor = record s { processes = insert name spawned s.processes } in
    rw (found, the_entry)
      (Holds-bind (λ _ t. t ≡ s₁) Sound (join_monitor thread name e.monitor s₁) _
        (join_monitor_keeps thread name e.monitor s₁)
        λ _ t same.
          emit_then now EventType.started name (pos pid) 0 []
            (record t { processes = insert name watched t.processes }) Sound _
            λ u kept.
              rw (kept, same)
                (insert_sound name watched _ (insert_others name spawned s.processes h)
                  (record { named = named; counted = omega arith; rests = tt; watched = tt })))

restart_or_fail-Sound :
    (thread : Thread) (fork : Fork) (now : ℕ) (name : Bytes) (s : Supervisor) (e : ProcessEntry)
    → OthersSound name s.processes
    → IsSound name e
    → Holds Sound (restart_or_fail thread fork now name e s)
unfolding restart_or_fail
restart_or_fail-Sound thread fork now name s e h sound =
    elim (Bool-cases (ltb e.state.restart_count e.config.max_restarts)) [
      | inr spent ↦ rw spent (
          insert_sound name _ s.processes h
            (record { named = sound.named; counted = sound.counted; rests = tt; watched = tt }))
      | inl left ↦ rw left (
          let again : ProcessEntry = record e {
            state = record e.state {
              status = restarting;
              restart_count = e.state.restart_count + 1;
            };
          } in
          let s₁ : Supervisor = record s { processes = insert name again s.processes } in
          emit_then now EventType.restarted name (negsuc 0) 0 _ s₁ Sound _ λ u kept.
            Holds-bind Sound Sound (spawn_process thread fork name u) _
              (spawn_process-Sound thread fork name u again
                (rw kept (insert_others name again s.processes h))
                (rw (kept, lookup-insert, bytes_eq_refl)) sound.named)
              (λ _ t done. done))
    ]

-- handle_exit keeps every entry sound, whichever thread calls it and whatever the status is.
pub handle_exit-Sound :
    (thread : Thread) (fork : Fork) (now : ℕ) (name : Bytes) (status : ℕ) (s : Supervisor)
    → AllSound s.processes
    → Holds Sound (handle_exit thread fork now name status s)
unfolding handle_exit
handle_exit-Sound thread fork now name status s h = elim (Option-cases (lookup name s.processes)) [
  | inl missing ↦ rw (missing, the_entry) tt
  | inr (e, found) ↦
      rw (found, the_entry)
        (let code = wexitstatus status in
          let exited : ProcessEntry = record e {
            running = false;
            state = record e.state { exit_code = code; status = Status.stopped };
          } in
          let sound : IsSound name exited = record {
            named = (h.at name e found).named;
            counted = (h.at name e found).counted;
            rests = tt;
            watched = tt;
          } in
          let kept_sound = insert_sound name exited s.processes (others name s.processes h) sound in
          emit_then now _ name e.state.pid code []
            (record s { processes = insert name exited s.processes }) Sound _
            λ u kept.
              Holds-if_act Sound (not (code == 0) && may_restart e.config.restart_policy)
                (restart_or_fail thread fork now name exited) (pure tt) u
                (λ _.
                  restart_or_fail-Sound thread fork now name u exited
                    (rw kept (others name _ kept_sound)) sound)
                (λ _. rw kept kept_sound))
]
