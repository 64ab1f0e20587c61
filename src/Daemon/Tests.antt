-- ===== src/Daemon/Tests.antt =====
-- main with a scripted server and no rounds, and its callbacks.
use sandobox_cpp.Base.{
  ℕ, ◌≡◌, ◌==◌, refl, Bytes, List, [], ◌∷◌, ◌++◌, ℤ, pos, Bool, true, false, ◌||◌, inr, none, some,
  text, bytes_eq,
}
use sandobox_cpp.Result.{Result, ok, err, Errc}
use sandobox_cpp.Options.{LongOption, defaults, parse_args}
use sandobox_cpp.Redis.Response.{Response, nil, str, arr, end, cons}
use sandobox_cpp.Sandbox.{Ledger, exited}
use sandobox_cpp.Sandbox.Reading.{Pipe}
use sandobox_cpp.Supervisor.Types.{EventType, ProcessEvent}
use sandobox_cpp.Metrics.Types.{MetricType}
use sandobox_cpp.Log
use sandobox_cpp.Metrics
use sandobox_cpp.Base
use sandobox_cpp.Health
use sandobox_cpp.Health.{HealthMonitor}
use sandobox_cpp.Resource.Manager.{no_stats}
use sandobox_cpp.Jobs.Calls.{Server, tapped}
use sandobox_cpp.Jobs.Round.{AnsweredJob}
use sandobox_cpp.Redis.Commands.{Command, job_next}
use sandobox_cpp.Jobs.{Doubles, World, Machine}
use sandobox_cpp.Daemon.Callbacks.{on_event, checks, monitored}
use sandobox_cpp.Daemon.Lifetime.{outlives, main-outlives_iff}
use sandobox_cpp.Daemon.Service.{Served, main_serves}
use sandobox_cpp.Daemon.{initial_world, Outcome, early, begun, unwound, main}

abbrev polite : Server
polite = record { State = Bool; call = λ command s. some (ok nil, s) }

abbrev printed : Doubles
printed = record { V = ℤ; of_signed = λ z. z; of_unsigned = λ n. pos n }

abbrev silent : Pipe
silent = record {
  State = Unit {0};
  read = λ s n. (none, s);
  pending = λ s. [];
  read_takes = λ s n bs e. cc e;
  read_ends = λ s n e. refl;
  read_fails = λ s n e. refl;
}

abbrev nothing_held : Ledger
nothing_held = record { open_fds = []; blocks = []; removed = []; spawned = []; reaped = [] }

abbrev no_options : List Bytes → Bytes → List LongOption → List (ℕ × Bytes)
no_options argv short long = []

abbrev refused : Bytes → ℕ → Result (Unit {0}) × Bool
refused host port = (err (record { code = Errc.system; message = text "connect" }), false)

abbrev given_up : Outcome (World Bool ℤ)
given_up = early 1 (begun ++ unwound)

main-refused :
    main polite printed (λ n. n) silent 42 nothing_held no_options [] refused [] ≡ some given_up
unfolding main
main-refused = refl

-- The thread still runs when the resource manager goes.
main-outlives_iff_example : outlives false given_up.steps ≡ (1 == 0 || false)
main-outlives_iff_example =
    main-outlives_iff polite printed (λ n. n) silent 42 nothing_held no_options [] refused []
      given_up main-refused

-- A server that always has the same job, and a machine whose children exit with 1.
abbrev job_reply : Response
job_reply = arr (
    cons (str (text "j1")) (
      cons (str (text "build"))
        (cons (str (text "local")) (cons (str (text "make")) (cons (str (text "0")) end)))))

abbrev answer : Command → Result Response
answer job_next = ok job_reply
answer _ = ok nil

abbrev busy : Server
busy = record { State = Bool; call = λ command s. some (answer command, s) }

abbrev machine : Machine silent
machine = record {
  answers = record {
    pipe = some (5, 6);
    stack = some 4096;
    clone = inr 77;
    status = exited 1;
    started = 0;
    ended = 0;
  };
  pipe = tt;
  started = 1000000;
  ended = 4000000;
}

busy-AnsweredJob :
    (sandbox_id job_id : Bytes) (code duration : ℤ)
    → AnsweredJob busy sandbox_id job_id code duration
busy-AnsweredJob sandbox_id job_id code duration = record {
  claims = λ s e. cc e;
  starts = λ s e. cc e;
  logs = λ line s e. cc e;
  reports = λ s e. cc e;
  releases = λ s e. cc e;
}

main_serves_example :
    (out : Outcome (World (Bool × List Command) ℤ)) × (main
        (tapped busy)
        printed
        (λ n. n)
        silent
        42
        nothing_held
        no_options
        []
        (λ host port. (ok tt, (true, [])))
        (machine ∷ machine ∷ [])
      ≡ some out)
    × Served busy printed (λ n. n) silent 42 nothing_held out
unfolding parse_args
main_serves_example =
    main_serves busy printed (λ n. n) silent 42 nothing_held no_options []
      (λ host port. (ok tt, true)) (machine ∷ machine ∷ []) defaults true true (ok nil) refl refl
      refl refl refl (λ s e. cc e)
      (
        λ s s' reply j e there. busy-AnsweredJob _ j.id _ _,
        (λ s s' reply j e there. busy-AnsweredJob _ j.id _ _, tt),
      )

-- main adds no sandbox to its resource manager, so that no check can fail.
resources_are_ok : checks no_stats (text "resources") ≡ (true, text "ok")
unfolding checks bytes_eq
resources_are_ok = refl

abbrev idle_monitor : HealthMonitor
idle_monitor = record {
  checks = [];
  statuses = [];
  interval_ms = 1000;
  running = false;
  locked = false;
}

monitored_checks :
    (monitored 0 idle_monitor).checks ≡ text "resources" ∷ text "sandbox" ∷ text "redis" ∷ []
unfolding monitored sandobox_cpp.Health.register_check bytes_eq
monitored_checks = refl

abbrev crash : ProcessEvent
crash = record {
  type = EventType.crashed;
  process_name = text "web";
  pid = pos 7;
  exit_code = 1;
  timestamp = 0;
  message = [];
}

-- The event is logged under its type, and counted under it.
crash_is_noted :
    let w : World Bool ℤ =
      on_event polite printed (λ n. n) (text "s1") true crash (initial_world true nothing_held) in
    (w.log_agg.entries
      ≡ record {
        timestamp_ms = 0;
        source = text "supervisor";
        level = text "CRASHED";
        message = text "web: pid=7 exit=1";
      }
        ∷ [])
    × (w.metrics.metrics
        ≡ record {
          name = text "supervisor.events_total";
          type = MetricType.counter;
          value = pos 1;
          labels = (text "type", text "CRASHED") ∷ [];
        }
          ∷ [])
unfolding on_event sandobox_cpp.Log.push sandobox_cpp.Base.decimal_int sandobox_cpp.Metrics.counter
crash_is_noted = (refl, refl)
