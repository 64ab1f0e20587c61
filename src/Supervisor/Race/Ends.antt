-- ===== src/Supervisor/Race/Ends.antt =====
-- The steps of stop of sandbox/src/process_supervisor.cpp among those of the monitor thread.
use sandobox_cpp.Base.{
  ℕ, ◌+◌, ◌-◌, ◌/◌, ◌≤◌, ◌≡◌, ◌⊎◌, inl, inr, refl, Bool-cases, some, lookup, lookup-insert,
  bytes_eq_refl, Bytes, ltb, not_ltb→le, arith,
}
use sandobox_cpp.Supervisor.Types.{Supervisor, ProcessEntry}
use sandobox_cpp.Supervisor.Control.{is_running}
use sandobox_cpp.Supervisor.Race.{
  StopAt, clearing, signalling, polling, marking, ended, MonitorAt, Race, put_entry, Step, clears,
  terminates, polls, forces, leaves, marks, goes_on, quits, acts, wakes, Run, here, and_then,
}

module _ (name : Bytes) (timeout_ms : ℕ) where
  -- 1 for a step of stop, 0 for one of the monitor
  abbrev pub own : {r r' : Race} → Step name timeout_ms r r' → ℕ
  own (clears found on) = 1
  own (terminates found) = 1
  own (polls found on early more) = 1
  own (forces found on late) = 1
  own (leaves found off) = 1
  own (marks found) = 1
  own (goes_on found on) = 0
  own (quits found off) = 0
  own (acts round found e more) = 0
  own wakes = 0

  -- The steps of stop in a run.
  abbrev pub stop_steps : {r r' : Race} → Run name timeout_ms r r' → ℕ
  stop_steps here = 0
  stop_steps (and_then step run) = own step + stop_steps run

  -- As many steps are before stop at most.
  abbrev ahead : StopAt → ℕ
  ahead clearing = 4 + (timeout_ms + 10) / 10
  ahead signalling = 3 + (timeout_ms + 10) / 10
  ahead (polling elapsed) = 2 + (timeout_ms + 10 - elapsed) / 10
  ahead marking = 1
  ahead ended = 0

  step-ahead :
      {r r' : Race} (step : Step name timeout_ms r r')
      → own step + ahead r'.stop_at ≤ ahead r.stop_at
  step-ahead (clears found on) = omega arith
  step-ahead (terminates found) = omega arith
  step-ahead (polls {elapsed = elapsed} found on early more) =
      let within : elapsed ≤ timeout_ms = not_ltb→le timeout_ms elapsed early in
      omega (arith, within, more)
  step-ahead (forces found on late) = omega arith
  step-ahead (leaves found off) = omega arith
  step-ahead (marks found) = omega arith
  step-ahead (goes_on found on) = omega arith
  step-ahead (quits found off) = omega arith
  step-ahead (acts round found e more) = omega arith
  step-ahead wakes = omega arith

  run-ahead :
      {r r' : Race} (run : Run name timeout_ms r r')
      → stop_steps run + ahead r'.stop_at ≤ ahead r.stop_at
  run-ahead here = omega arith
  run-ahead (and_then step run) = omega (arith, step-ahead step, run-ahead run)

  abbrev IsPast : StopAt → Type 0
  IsPast clearing = ⊥
  IsPast _ = Unit

  -- The entry is there, and stop is behind its first test.
  abbrev IsUnderWay : Race → Type 0
  IsUnderWay r = IsPast r.stop_at × ((e : ProcessEntry) × (lookup name r.sup.processes ≡ some e))

  found-put :
      (e : ProcessEntry) (s : Supervisor)
      → (e' : ProcessEntry) × (lookup name (put_entry name e s).processes ≡ some e')
  found-put e s = (e, rw (lookup-insert, bytes_eq_refl) refl)

  step-IsUnderWay : {r r' : Race} → Step name timeout_ms r r' → IsUnderWay r → IsUnderWay r'
  step-IsUnderWay (clears {s = s} found on) h = (tt, found-put _ s)
  step-IsUnderWay (terminates found) h = (tt, h.1)
  step-IsUnderWay (polls found on early more) h = (tt, h.1)
  step-IsUnderWay (forces found on late) h = (tt, h.1)
  step-IsUnderWay (leaves found off) h = (tt, h.1)
  step-IsUnderWay (marks {s = s} found) h = (tt, found-put _ s)
  step-IsUnderWay (goes_on found on) h = h
  step-IsUnderWay (quits {s = s} found off) h = (h.0, found-put _ s)
  step-IsUnderWay (acts {e' = e'} round found e more) h = (h.0, (e', more))
  step-IsUnderWay wakes h = h

  run-IsUnderWay : {r r' : Race} → Run name timeout_ms r r' → IsUnderWay r → IsUnderWay r'
  run-IsUnderWay here h = h
  run-IsUnderWay (and_then step run) h = run-IsUnderWay run (step-IsUnderWay step h)

  abbrev pub CanStep : Race → Type 0
  CanStep r = (r' : Race) × (step : Step name timeout_ms r r') × (own step ≡ 1)

  polling-CanStep :
      (s : Supervisor) (elapsed : ℕ) (m : MonitorAt) (e : ProcessEntry)
      → lookup name s.processes ≡ some e
      → CanStep (record { sup = s; stop_at = polling elapsed; monitor_at = m })
  polling-CanStep s elapsed m e found = elim (Bool-cases (is_running e.state.status)) [
    | inr off ↦ (_, leaves found off, refl)
    | inl on ↦ elim (Bool-cases (ltb timeout_ms elapsed)) [
      | inl late ↦ (_, forces found on late, refl)
      | inr early ↦ (_, polls {next = elapsed + 10} found on early (omega arith), refl)
    ]
  ]

  next_step :
      (s : Supervisor) (m : MonitorAt) (p : StopAt)
      → IsUnderWay (record { sup = s; stop_at = p; monitor_at = m })
      → (p ≡ ended) ⊎ CanStep (record { sup = s; stop_at = p; monitor_at = m })
  next_step s m clearing h = absurd h.0
  next_step s m signalling (past, (e, found)) = inr (_, terminates {elapsed = 0} found, refl)
  next_step s m (polling elapsed) (past, (e, found)) = inr (polling-CanStep s elapsed m e found)
  next_step s m marking (past, (e, found)) = inr (_, marks found, refl)
  next_step s m ended h = inl refl

  -- From where stop has cleared `running` of its process: in whatever order it and the monitor thread
  -- go on, stop makes at most a tenth of its timeout in steps, and four more; and until it is over, its next
  -- step is there, whatever the monitor has done.
  pub stop_ends :
      (s : Supervisor) (e : ProcessEntry) (m : MonitorAt) (r : Race)
      → lookup name s.processes ≡ some e
      → (run : Run name timeout_ms (record { sup = s; stop_at = signalling; monitor_at = m }) r)
      → (stop_steps run ≤ timeout_ms / 10 + 4) × ((r.stop_at ≡ ended) ⊎ CanStep r)
  stop_ends s e m r found run = (
    omega (arith, run-ahead run),
    next_step r.sup r.monitor_at r.stop_at (run-IsUnderWay run (tt, (e, found))),
  )
