-- ===== src/Jobs.antt =====
-- The job loop of main in sandbox/src/main.cpp: one round asks the server for a job, claims it, runs it
-- in a sandbox of its own and reports it. What is printed is not in the model.
pub mod Calls
pub mod Round
pub mod Requests
pub mod Follows
pub mod Protocol
pub mod Trace
pub mod Balance
mod Tests
use sandobox_cpp.Base.{
  ℕ, suc, ◌+◌, ◌-◌, ◌/◌, ◌%◌, ◌^◌, ℤ, pos, negsuc, Bytes, List, [], ◌∷◌, ◌++◌, take, Bool, true,
  false, text, decimal, decimal_int, bytes_eq, ◌==◌, Option, none, some, if◌then◌else◌,
}
use sandobox_cpp.Result.{Result, ok}
use sandobox_cpp.Redis.Response.{Response, is_nil, is_error, as_str, as_arr}
use sandobox_cpp.Redis.Commands.{
  Command, job_next, job_result, job_log, sandbox_claim, sandbox_release,
}
use sandobox_cpp.Log
use sandobox_cpp.Log.{LogAggregator}
use sandobox_cpp.Metrics
use sandobox_cpp.Metrics.Types.{MetricsExporter}
use sandobox_cpp.Sandbox.Reading.{Pipe}
use sandobox_cpp.Sandbox.{
  SandboxConfig, default_config, ExecResult, Sandbox, sandbox, cleanup, Answers, Ledger, Ran, run,
}
use sandobox_cpp.Jobs.Calls.{Server, ◌>>=◌}

-- double, and the casts to it that the loop makes
pub record Doubles : Type 1 where
  pub V : Type 0
  pub of_signed : ℤ → V
  pub of_unsigned : ℕ → V

-- The client, the log, the exporter and the counts of main, what the process holds, and how often the
-- log has read its clock.
pub record World (S V : Type 0) : Type 0 where
  pub redis : S
  pub log_agg : LogAggregator
  pub metrics : MetricsExporter V
  pub jobs_completed : ℕ
  pub jobs_failed : ℕ
  pub ledger : Ledger
  pub readings : ℕ

-- What is outside of one round: the answers to the sandbox's calls, its pipe, and the steady clock of
-- main before and after the run, in nanoseconds.
pub record Machine (k : Pipe) : Type 0 where
  pub answers : Answers
  pub pipe : k.State
  pub started : ℕ
  pub ended : ℕ

pub record Job : Type 0 where
  pub id : Bytes
  pub name : Bytes
  pub target : Bytes
  pub command : Bytes

-- arr[0] to arr[3], of five elements or more
unfoldable pub job_of : List Response → Option Job
job_of (a ∷ b ∷ c ∷ d ∷ e ∷ rest) =
    some (record { id = as_str a; name = as_str b; target = as_str c; command = as_str d })
job_of _ = none

-- How long the loop sleeps, in milliseconds, after a round.
abbrev pub Pause : Type 0
Pause = ℕ

abbrev pub is_zero : ℤ → Bool
is_zero (pos n) = n == 0
is_zero (negsuc n) = false

module _ (srv : Server) (d : Doubles) (clock : ℕ → ℕ) (sandbox_id : Bytes)
    (use_seccomp : Bool) where
  abbrev W : Type 0
  W = World srv.State d.V

  -- a call whose reply is not read
  unfoldable pub say : Command → W → Option W
  say command w = do (reply, redis) ← srv.call command w.redis; some (record w { redis = redis })

  unfoldable pub note : Bytes → Bytes → Bytes → W → W
  note source level message w = record w {
    log_agg = sandobox_cpp.Log.push (clock w.readings) source level message w.log_agg;
    readings = suc w.readings;
  }

  unfoldable pub note_raw : Bytes → Bytes → W → W
  note_raw source line w = record w {
    log_agg = sandobox_cpp.Log.push_raw (clock w.readings) source line w.log_agg;
    readings = suc w.readings;
  }

  unfoldable pub count_one : Bytes → List (Bytes × Bytes) → W → W
  count_one name labels w = record w {
    metrics = sandobox_cpp.Metrics.counter name (d.of_unsigned 1) labels w.metrics;
  }

  -- the callback of sandbox.run
  unfoldable pub on_output : Bytes → Bytes → W → Option W
  unfolding say note_raw
  on_output job_id line w = do
    w1 ← say (job_log job_id (take 1000 line)) w
    some (note_raw (text "sandbox:" ++ job_id) line w1)

  -- a job, up to sandbox.run
  unfoldable pub begin_job : Job → W → Option W
  unfolding say note count_one
  begin_job job w = do
    let w1 =
        note (text "scheduler") (text "info")
          (text "running job: " ++ (job.id ++ (text " (" ++ (job.name ++ text ")")))) w
    let w2 = count_one (text "sandbox.jobs_started_total") ((text "target", job.target) ∷ []) w1
    w3 ← say (sandbox_claim sandbox_id job.id) w2
    say (job_log job.id (text "sandbox: starting execution")) w3

  -- cfg
  abbrev pub config_of : Job → SandboxConfig
  config_of job = record default_config {
    id = job.id;
    enable_seccomp = use_seccomp;
    enable_network = bytes_eq job.target (text "network");
  }

  unfoldable pub tally : Job → ℤ → ℤ → W → W
  unfolding note
  tally job exit_code duration w =
      if is_zero exit_code
      then note (text "scheduler") (text "info")
          (text "job " ++ (job.id ++ (text " PASSED (" ++ (decimal_int duration ++ text "ms)"))))
          (record w { jobs_completed = (w.jobs_completed + 1) % 2 ^ 64 })
      else note (text "scheduler") (text "error")
          (text "job "
            ++ (job.id ++ (text " FAILED (exit=" ++ (decimal_int exit_code ++ text ")"))))
          (record w { jobs_failed = (w.jobs_failed + 1) % 2 ^ 64 })

  unfoldable pub measure : Job → ℤ → ℤ → W → W
  unfolding count_one
  measure job exit_code duration w =
      let w1 =
        count_one (text "sandbox.jobs_completed_total")
          ((text "exit_code", decimal_int exit_code) ∷ (text "target", job.target) ∷ []) w in
      record w1 {
        metrics =
            sandobox_cpp.Metrics.histogram (text "sandbox.execution_duration_ms")
              (d.of_signed duration) [] w1.metrics;
      }

  unfoldable pub publish : W → W
  publish w =
      let metrics =
        sandobox_cpp.Metrics.gauge (text "sandbox.jobs_completed") (d.of_unsigned w.jobs_completed)
          [] w.metrics in
      record w {
        metrics =
            sandobox_cpp.Metrics.gauge (text "sandbox.jobs_failed") (d.of_unsigned w.jobs_failed) []
              metrics;
      }

  -- a job, from the end of sandbox.run on
  unfoldable pub end_job : Job → ℤ → ℤ → W → Option W
  unfolding say tally measure publish
  end_job job exit_code duration w = do
    w1 ← say (job_result job.id exit_code duration) w
    say (sandbox_release sandbox_id)
        (publish (tally job exit_code duration (measure job exit_code duration w1)))

  module _ (k : Pipe) where
    -- Sandbox sandbox(cfg) and sandbox.run
    unfoldable pub execute : Machine k → Job → W → Option (ExecResult × Sandbox × W)
    unfolding on_output run
    execute m job w =
        elim (run k m.answers job.command (some (λ line w'. w' >>= on_output job.id line)) (some w)
          (sandbox (config_of job)) w.ledger m.pipe) [
            | ok ran ↦ (do
              w1 ← ran.caller
              some (ran.result, ran.after, record w1 { ledger = ran.ledger }))
            | _ ↦ none
          ]

    -- a job, with ~Sandbox at its end
    unfoldable pub do_job : Machine k → Job → W → Option W
    unfolding begin_job execute end_job cleanup
    do_job m job w = do
      w1 ← begin_job job w
      (result, box, w2) ← execute m job w1
      w3 ← end_job job result.exit_code (pos ((m.ended - m.started) / 1000000)) w2
      some (record w3 { ledger = (cleanup box w3.ledger).1 })

    abbrev pub with_array : Machine k → Option Job → W → Option (Pause × W)
    with_array m none w = some (0, w)
    with_array m (some job) w = do w1 ← do_job m job w; some (100, w1)

    -- a round, once the server has replied
    unfoldable pub take_reply : Machine k → Result Response → W → Option (Pause × W)
    unfolding do_job job_of
    take_reply m (ok reply) w =
        if is_nil reply
        then some (500, w)
        else if is_error reply
        then some (1000, w)
        else with_array m (job_of (as_arr reply)) w
    take_reply m _ w = some (500, w)

    unfoldable pub job_round : Machine k → W → Option (Pause × W)
    unfolding take_reply
    job_round m w = do
      (job_resp, redis) ← srv.call job_next w.redis
      take_reply m job_resp (record w { redis = redis })

    -- the loop, for as many rounds as g_running lets it make
    unfoldable pub job_loop : List (Machine k) → W → Option W
    unfolding job_round
    job_loop [] w = some w
    job_loop (m ∷ ms) w = do (pause, w1) ← job_round m w; job_loop ms w1
