-- ===== src/Jobs/Tests.antt =====
-- One round with a server that has a job for each call of job_next.
use sandobox_cpp.Base.{
  Bytes, ◌≡◌, refl, List, [], ◌∷◌, ℤ, pos, Bool, true, Option, none, some, text, inr, arith, ◌++◌,
  le_bytes, decimal_int,
}
use sandobox_cpp.Result.{Result, ok}
use sandobox_cpp.Redis.Response.{Response, nil, str, arr, end, cons}
use sandobox_cpp.Redis.Commands.{
  Command, job_next, job_result, job_log, sandbox_claim, sandbox_release, arguments,
}
use sandobox_cpp.Log
use sandobox_cpp.Sandbox.Reading.{Pipe}
use sandobox_cpp.Sandbox.{exited}
use sandobox_cpp.Jobs.Calls.{Server, tapped, over_redis}
use sandobox_cpp.Jobs.Round.{AnsweredJob, sent}
use sandobox_cpp.Jobs.Balance.{Balanced, job_loop_balances}
use sandobox_cpp.Redis.Wire.{encode, IsWire}
use sandobox_cpp.Redis.Client.{Client}
use sandobox_cpp.Redis.Frame.Layout.{body}
use sandobox_cpp.Redis.Trickle.{trickle, trickle-IsLive}
use sandobox_cpp.Jobs.Follows.{put}
use sandobox_cpp.Jobs.Protocol.{replay, reply_frames, request_frames, AreSendable, job_loop_speaks}
use sandobox_cpp.Jobs.{Doubles, World, Machine, job_loop}

abbrev job : Response
job = arr (
    cons (str (text "j1")) (
      cons (str (text "build"))
        (cons (str (text "local")) (cons (str (text "make")) (cons (str (text "0")) end)))))

-- The state is how many jobs are left.
abbrev reply_to : Command → Bool → Result Response × Bool
reply_to job_next s = (ok job, s)
reply_to _ s = (ok nil, s)

abbrev jobs : Server
jobs = record { State = Bool; call = λ command s. some (reply_to command s) }

abbrev printed : Doubles
printed = record { V = ℤ; of_signed = λ z. z; of_unsigned = λ n. pos n }

-- A pipe whose writers write nothing.
abbrev silent : Pipe
silent = record {
  State = Unit {0};
  read = λ s n. (some [], s);
  pending = λ s. [];
  read_takes = λ s n bs e. ground arith;
  read_ends = λ s n e. refl;
  read_fails = λ s n e. refl;
}

abbrev machine : Machine silent
machine = record {
  answers = record {
    pipe = some (5, 6);
    stack = some 4096;
    clone = inr 77;
    status = exited 0;
    started = 0;
    ended = 0;
  };
  pipe = tt;
  started = 1000000;
  ended = 4000000;
}

abbrev world : World (Bool × List Command) ℤ
world = record {
  redis = (true, []);
  log_agg = sandobox_cpp.Log.initial;
  metrics = record { metrics = [] };
  jobs_completed = 0;
  jobs_failed = 0;
  ledger = record { open_fds = []; blocks = []; removed = []; spawned = []; reaped = [] };
  readings = 0;
}

abbrev sent_of : Option (World (Bool × List Command) ℤ) → List Command
sent_of (some w) = sent w
sent_of none = []

job_loop_once :
    sent_of (job_loop (tapped jobs) printed (λ n. n) (text "s1") true silent (machine ∷ []) world)
    ≡ (job_next
        ∷ sandbox_claim (text "s1") (text "j1")
        ∷ job_log (text "j1") (text "sandbox: starting execution")
        ∷ job_result (text "j1") (pos 0) (pos 3)
        ∷ sandbox_release (text "s1")
        ∷ [])
unfolding job_loop
job_loop_once = refl

-- This server answers everything.
jobs-AnsweredJob :
    (sandbox_id job_id : Bytes) (code duration : ℤ)
    → AnsweredJob jobs sandbox_id job_id code duration
jobs-AnsweredJob sandbox_id job_id code duration = record {
  claims = λ s e. cc e;
  starts = λ s e. cc e;
  logs = λ line s e. cc e;
  reports = λ s e. cc e;
  releases = λ s e. cc e;
}

job_loop_balances_example :
    (w' : World (Bool × List Command) ℤ) × (job_loop
        (tapped jobs)
        printed
        (λ n. n)
        (text "s1")
        true
        silent
        (machine ∷ machine ∷ [])
        world
      ≡ some w')
    × Balanced w'
job_loop_balances_example =
    job_loop_balances jobs printed (λ n. n) (text "s1") true silent (machine ∷ machine ∷ []) world
      (λ s e. cc e)
      (
        λ s s' reply j e there. jobs-AnsweredJob (text "s1") j.id _ _,
        (λ s s' reply j e there. jobs-AnsweredJob (text "s1") j.id _ _, tt),
      )
      (refl, refl, refl)

-- The job, and a nil for each request of it.
abbrev ready : List Response
ready = job ∷ nil ∷ nil ∷ nil ∷ nil ∷ []

ready-AreSendable : AreSendable ready
unfolding IsWire encode le_bytes
ready-AreSendable = (
  (omega arith, (omega arith, (omega arith, (omega arith, (omega arith, (omega arith, tt)))))),
  omega arith,
  (tt, omega arith, (tt, omega arith, (tt, omega arith, (tt, omega arith, tt)))),
)

abbrev scripted : World (List Response × List Command) ℤ
scripted = record {
  redis = (ready, []);
  log_agg = world.log_agg;
  metrics = world.metrics;
  jobs_completed = 0;
  jobs_failed = 0;
  ledger = world.ledger;
  readings = 0;
}

abbrev scripted_loop : Option (World (List Response × List Command) ℤ)
unfolding job_loop
scripted_loop =
    job_loop (tapped replay) printed (λ n. n) (text "s1") true silent (machine ∷ []) scripted

abbrev finish : World (List Response × List Command) ℤ
unfolding scripted_loop
finish = elim scripted_loop [ some w ↦ w | none ↦ scripted ]

abbrev caller : Client trickle
unfolding reply_frames
caller = record { fd = some 3; open_fds = 3 ∷ []; stream = (reply_frames ready, []) }

job_loop_speaks_example :
    (c' : Client trickle) × (job_loop
        (over_redis trickle)
        printed
        (λ n. n)
        (text "s1")
        true
        silent
        (machine ∷ [])
        (put caller scripted)
      ≡ some (put c' finish))
    × (c'.stream.0 ≡ reply_frames finish.redis.0)
    × (c'.stream.1 ≡ caller.stream.1 ++ request_frames finish.redis.1)
unfolding scripted_loop finish caller body le_bytes arguments decimal_int
job_loop_speaks_example =
    job_loop_speaks trickle trickle-IsLive printed (λ n. n) (text "s1") true silent (machine ∷ [])
      caller scripted finish refl refl ready-AreSendable refl refl
