-- ===== src/Supervisor/Race.antt =====
-- stop of sandbox/src/process_supervisor.cpp against the monitor thread of the process, in any order
-- of their accesses. stop holds processes_mutex_, so that no other call and no watchdog has a part in
-- it; monitor_process takes no lock. What a round does behind its
-- test of `running` is one step; the time between two steps is any.
pub mod Forced
pub mod Ends
use sandobox_cpp.Base.{
  ℕ, ◌+◌, ◌≤◌, ◌≡◌, Bytes, ◌∷◌, [], ◌++◌, Bool, true, false, Option, some, lookup, insert, ltb,
}
use sandobox_cpp.Supervisor.Types.{
  Supervisor, ProcessEntry, Signal, sigterm, sigkill, Status, Monitor, absent, looping, returned,
}
use sandobox_cpp.Supervisor.Act.{Outcome, returns}
use sandobox_cpp.Supervisor.Process.{Round, after_wait}
use sandobox_cpp.Supervisor.Control.{is_running}

-- Where stop is: before it clears `running`, before it sends SIGTERM, in its wait with the time that
-- it reads as elapsed, behind the wait, and behind its end.
pub data StopAt : Type 0 where
  clearing signalling : StopAt
  polling : ℕ → StopAt
  marking ended : StopAt

-- Where the monitor thread is: before the test of `running`, behind it, asleep, or gone.
pub data MonitorAt : Type 0 where
  testing inside asleep gone : MonitorAt

pub record Race : Type 0 where
  pub sup : Supervisor
  pub stop_at : StopAt
  pub monitor_at : MonitorAt

abbrev pub put_entry : Bytes → ProcessEntry → Supervisor → Supervisor
put_entry name entry s = record s { processes = insert name entry s.processes }

abbrev pub signalled : ProcessEntry → Signal → Supervisor → Supervisor
signalled entry signal s = record s { signals = s.signals ++ (entry.state.pid, signal) ∷ [] }

-- A thread that goes on with its loop sleeps first.
abbrev pub after_round : Monitor → MonitorAt
after_round looping = asleep
after_round _ = gone

module _ (name : Bytes) (timeout_ms : ℕ) where
  pub data Step : Race → Race → Type 0 where
    -- if (status != RUNNING) return false; entry->running = false;
    clears :
        {s : Supervisor} {m : MonitorAt} {e : ProcessEntry}
        → lookup name s.processes ≡ some e
        → is_running e.state.status ≡ true
        → Step
            (record { sup = s; stop_at = clearing; monitor_at = m })
            (record {
              sup = put_entry name (record e { running = false }) s;
              stop_at = signalling;
              monitor_at = m;
            })
    terminates :
        {s : Supervisor} {m : MonitorAt} {e : ProcessEntry} {elapsed : ℕ}
        → lookup name s.processes ≡ some e
        → Step
            (record { sup = s; stop_at = signalling; monitor_at = m })
            (record { sup = signalled e sigterm s; stop_at = polling elapsed; monitor_at = m })
    -- A turn of the wait, with its sleep of 10 ms.
    polls :
        {s : Supervisor} {m : MonitorAt} {e : ProcessEntry} {elapsed next : ℕ}
        → lookup name s.processes ≡ some e
        → is_running e.state.status ≡ true
        → ltb timeout_ms elapsed ≡ false
        → elapsed + 10 ≤ next
        → Step
            (record { sup = s; stop_at = polling elapsed; monitor_at = m })
            (record { sup = s; stop_at = polling next; monitor_at = m })
    forces :
        {s : Supervisor} {m : MonitorAt} {e : ProcessEntry} {elapsed : ℕ}
        → lookup name s.processes ≡ some e
        → is_running e.state.status ≡ true
        → ltb timeout_ms elapsed ≡ true
        → Step
            (record { sup = s; stop_at = polling elapsed; monitor_at = m })
            (record { sup = signalled e sigkill s; stop_at = marking; monitor_at = m })
    leaves :
        {s : Supervisor} {m : MonitorAt} {e : ProcessEntry} {elapsed : ℕ}
        → lookup name s.processes ≡ some e
        → is_running e.state.status ≡ false
        → Step
            (record { sup = s; stop_at = polling elapsed; monitor_at = m })
            (record { sup = s; stop_at = marking; monitor_at = m })
    marks :
        {s : Supervisor} {m : MonitorAt} {e : ProcessEntry}
        → lookup name s.processes ≡ some e
        → Step
            (record { sup = s; stop_at = marking; monitor_at = m })
            (record {
              sup =
                  put_entry name
                    (record e { state = record e.state { status = Status.stopped } })
                    s;
              stop_at = ended;
              monitor_at = m;
            })
    -- while (entry->running)
    goes_on :
        {s : Supervisor} {p : StopAt} {e : ProcessEntry}
        → lookup name s.processes ≡ some e
        → e.running ≡ true
        → Step
            (record { sup = s; stop_at = p; monitor_at = testing })
            (record { sup = s; stop_at = p; monitor_at = inside })
    quits :
        {s : Supervisor} {p : StopAt} {e : ProcessEntry}
        → lookup name s.processes ≡ some e
        → e.running ≡ false
        → Step
            (record { sup = s; stop_at = p; monitor_at = testing })
            (record {
              sup = put_entry name (record e { monitor = returned }) s;
              stop_at = p;
              monitor_at = gone;
            })
    -- the rest of a round, which may end the thread
    acts :
        {s s' : Supervisor} {p : StopAt} {e e' : ProcessEntry} (round : Round)
        → lookup name s.processes ≡ some e
        → after_wait round name e round.exited s ≡ returns tt s'
        → lookup name s'.processes ≡ some e'
        → Step
            (record { sup = s; stop_at = p; monitor_at = inside })
            (record { sup = s'; stop_at = p; monitor_at = after_round e'.monitor })
    wakes :
        {s : Supervisor} {p : StopAt}
        → Step
            (record { sup = s; stop_at = p; monitor_at = asleep })
            (record { sup = s; stop_at = p; monitor_at = testing })

  -- Any number of steps.
  pub data Run : Race → Race → Type 0 where
    here : {r : Race} → Run r r
    and_then : {r r' r'' : Race} → Step r r' → Run r' r'' → Run r r''
