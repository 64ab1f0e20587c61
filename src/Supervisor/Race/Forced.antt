-- ===== src/Supervisor/Race/Forced.antt =====
-- stop of sandbox/src/process_supervisor.cpp where the monitor thread of the process is not behind its
-- test of `running` when stop clears that.
use sandobox_cpp.Base.{
  ℕ, ℤ, ◌≡◌, refl, sym, ap, ◌∙◌, subst, Bytes, List, [], ◌∷◌, ◌++◌, append_assoc, true, false, some,
  lookup, lookup-insert, bytes_eq_refl,
}
use sandobox_cpp.Supervisor.Types.{
  Supervisor, ProcessEntry, Signal, sigterm, sigkill, Status, returned,
}
use sandobox_cpp.Supervisor.Control.{is_running}
use sandobox_cpp.Supervisor.Race.{
  StopAt, clearing, signalling, polling, marking, ended, MonitorAt, testing, inside, asleep, gone,
  Race, put_entry, Step, clears, terminates, polls, forces, leaves, marks, goes_on, quits, acts,
  wakes, Run, here, and_then,
}

-- The monitor is not behind its test.
abbrev pub IsOutside : MonitorAt → Type 0
IsOutside testing = Unit
IsOutside inside = ⊥
IsOutside asleep = Unit
IsOutside gone = Unit

pub lookup-put :
    (name : Bytes) (e : ProcessEntry) (s : Supervisor)
    → lookup name (put_entry name e s).processes ≡ some e
lookup-put name e s = rw (lookup-insert, bytes_eq_refl) refl

-- What stop has sent to the process, as far as it is, and the status.
abbrev Sent : List (ℤ × Signal) → ℤ → StopAt → Status → List (ℤ × Signal) → Type 0
Sent signals pid clearing status now = ⊥
Sent signals pid signalling status now = (is_running status ≡ true) × (now ≡ signals)
Sent signals pid (polling elapsed) status now =
    (is_running status ≡ true) × (now ≡ signals ++ (pid, sigterm) ∷ [])
Sent signals pid marking status now = now ≡ signals ++ (pid, sigterm) ∷ (pid, sigkill) ∷ []
Sent signals pid ended status now =
    (status ≡ Status.stopped) × (now ≡ signals ++ (pid, sigterm) ∷ (pid, sigkill) ∷ [])

sent-append :
    {now before : List (ℤ × Signal)} {p q : ℤ} (signal : Signal)
    → now ≡ before
    → p ≡ q
    → now ++ (p, signal) ∷ [] ≡ before ++ (q, signal) ∷ []
sent-append signal same id = λ i. same i ++ (id i, signal) ∷ []

-- The entry as stop left it when it cleared `running`, but for the status and the end of the thread;
-- what was emitted then.
record Unseen (name : Bytes) (s₀ : Supervisor) (e₀ : ProcessEntry) (r : Race) : Type 0 where
  pub entry : ProcessEntry
  pub found : lookup name r.sup.processes ≡ some entry
  pub off : entry.running ≡ false
  pub same_pid : entry.state.pid ≡ e₀.state.pid
  pub same_code : entry.state.exit_code ≡ e₀.state.exit_code
  pub silent : r.sup.emitted ≡ s₀.emitted
  pub outside : IsOutside r.monitor_at
  pub sent : Sent s₀.signals e₀.state.pid r.stop_at entry.state.status r.sup.signals

module _ (name : Bytes) (timeout_ms : ℕ) (s₀ : Supervisor) (e₀ : ProcessEntry) where
  step-Unseen :
      {r r' : Race} → Step name timeout_ms r r' → Unseen name s₀ e₀ r → Unseen name s₀ e₀ r'
  step-Unseen (clears found on) h = absurd h.sent
  step-Unseen (terminates {s = s} {e = e} found) h =
      let same : h.entry ≡ e = cc (h.found, found) in
      record {
        entry = h.entry;
        found = h.found;
        off = h.off;
        same_pid = h.same_pid;
        same_code = h.same_code;
        silent = h.silent;
        outside = h.outside;
        sent = (
          h.sent.0,
          sent-append sigterm h.sent.1 (sym (ap (λ x. x.state.pid) same) ∙ h.same_pid),
        );
      }
  step-Unseen (polls found on late more) h = record {
    entry = h.entry;
    found = h.found;
    off = h.off;
    same_pid = h.same_pid;
    same_code = h.same_code;
    silent = h.silent;
    outside = h.outside;
    sent = h.sent;
  }
  step-Unseen (forces {e = e} found on late) h =
      let same : h.entry ≡ e = cc (h.found, found) in
      record {
        entry = h.entry;
        found = h.found;
        off = h.off;
        same_pid = h.same_pid;
        same_code = h.same_code;
        silent = h.silent;
        outside = h.outside;
        sent =
            sent-append sigkill h.sent.1 (sym (ap (λ x. x.state.pid) same) ∙ h.same_pid)
            ∙ append_assoc s₀.signals _ _;
      }
  step-Unseen (leaves {e = e} found off) h =
      let same : h.entry ≡ e = cc (h.found, found) in
      absurd (cc (sym off ∙ ap (λ x. is_running x.state.status) (sym same) ∙ h.sent.0))
  step-Unseen (marks {s = s} {e = e} found) h =
      let same : h.entry ≡ e = cc (h.found, found) in
      record {
        entry = record e { state = record e.state { status = Status.stopped } };
        found = lookup-put name _ s;
        off = cc (same, h.off);
        same_pid = cc (same, h.same_pid);
        same_code = cc (same, h.same_code);
        silent = h.silent;
        outside = h.outside;
        sent = (refl, h.sent);
      }
  step-Unseen (goes_on {e = e} found on) h =
      let same : h.entry ≡ e = cc (h.found, found) in
      absurd (cc (sym on ∙ ap (λ x. x.running) (sym same) ∙ h.off))
  step-Unseen (quits {s = s} {e = e} found off) h =
      let same : h.entry ≡ e = cc (h.found, found) in
      record {
        entry = record e { monitor = returned };
        found = lookup-put name _ s;
        off = off;
        same_pid = cc (same, h.same_pid);
        same_code = cc (same, h.same_code);
        silent = h.silent;
        outside = tt;
        sent = subst (λ x. Sent s₀.signals e₀.state.pid _ x.state.status s.signals) same h.sent;
      }
  step-Unseen (acts round found e more) h = absurd h.outside
  step-Unseen wakes h = record {
    entry = h.entry;
    found = h.found;
    off = h.off;
    same_pid = h.same_pid;
    same_code = h.same_code;
    silent = h.silent;
    outside = tt;
    sent = h.sent;
  }

  run-Unseen : {r r' : Race} → Run name timeout_ms r r' → Unseen name s₀ e₀ r → Unseen name s₀ e₀ r'
  run-Unseen here h = h
  run-Unseen (and_then step run) h = run-Unseen run (step-Unseen step h)

-- From where stop has cleared `running` of a RUNNING process, with the monitor thread not behind its
-- test of that: in whatever order the two go on, a stop that is over has sent SIGTERM and SIGKILL, and
-- the entry is STOPPED with the exit code that it had, and no event was emitted. The wait never sees
-- the process end, since nobody waits for the child any more.
pub stop_forces :
    (name : Bytes) (timeout_ms : ℕ) (s₀ : Supervisor) (e₀ : ProcessEntry) (m : MonitorAt) (r : Race)
    → lookup name s₀.processes ≡ some e₀
    → is_running e₀.state.status ≡ true
    → e₀.running ≡ false
    → IsOutside m
    → Run name timeout_ms (record { sup = s₀; stop_at = signalling; monitor_at = m }) r
    → r.stop_at ≡ ended
    → (e : ProcessEntry) × (lookup name r.sup.processes ≡ some e)
      × (e.state.status ≡ Status.stopped)
      × (e.state.exit_code ≡ e₀.state.exit_code)
      × (r.sup.signals ≡ s₀.signals ++ (e₀.state.pid, sigterm) ∷ (e₀.state.pid, sigkill) ∷ [])
      × (r.sup.emitted ≡ s₀.emitted)
stop_forces name timeout_ms s₀ e₀ m r found on off outside run over =
    let h = run-Unseen name timeout_ms s₀ e₀ run (record {
      entry = e₀;
      found = found;
      off = off;
      same_pid = refl;
      same_code = refl;
      silent = refl;
      outside = outside;
      sent = (on, refl);
    }) in
    let (status, signals) =
      subst (λ p. Sent s₀.signals e₀.state.pid p h.entry.state.status r.sup.signals) over h.sent in
    (h.entry, h.found, status, h.same_code, signals, h.silent)
