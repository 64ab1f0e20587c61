-- ===== src/Daemon.antt =====
-- main of sandbox/src/main.cpp: the options, the parts and the order in which they are made, started,
-- stopped and destroyed, the registration, and the loop. The connection is an argument.
pub mod Callbacks
pub mod Lifetime
pub mod Service
mod Tests
use sandobox_cpp.Base.{
  ℕ, ◌==◌, Bytes, List, [], ◌∷◌, ◌++◌, Bool, true, false, text, decimal, Option, none, some,
  if◌then◌else◌,
}
use sandobox_cpp.Result.{Result, ok, err, out_of_fuel}
use sandobox_cpp.Options.{Options, GetoptLong, parse_args}
use sandobox_cpp.Redis.Response.{Response, is_error}
use sandobox_cpp.Redis.Commands.{Command, sandbox_register}
use sandobox_cpp.Log
use sandobox_cpp.Sandbox.{Ledger}
use sandobox_cpp.Sandbox.Reading.{Pipe}
use sandobox_cpp.Jobs.Calls.{Server, ◌>>=◌}
use sandobox_cpp.Jobs.{Doubles, World, Machine, job_loop}

pub data Part : Type 0 where
  metrics metrics_server health_monitor log_agg resource_manager process_supervisor redis : Part

-- What main does with a part. Starting redis is connect, and stopping it is close; stopping the
-- supervisor is stop_all.
pub data Step : Type 0 where
  constructs starts stops destroys : Part → Step

-- What main returns, what it has done by then, and the state of the loop, if it has come to it.
pub record Outcome (W : Type 0) : Type 0 where
  pub code : ℕ
  pub steps : List Step
  pub world : Option W

abbrev pub early : {W : Type 0} → ℕ → List Step → Outcome W
early code steps = record { code = code; steps = steps; world = none }

-- up to redis.connect
abbrev pub begun : List Step
begun =
    constructs metrics
    ∷ constructs metrics_server
    ∷ constructs health_monitor
    ∷ constructs log_agg
    ∷ constructs resource_manager
    ∷ constructs process_supervisor
    ∷ starts metrics_server
    ∷ starts health_monitor
    ∷ constructs redis
    ∷ starts redis
    ∷ []

-- after the loop
abbrev pub shut_down : List Step
shut_down =
    stops health_monitor ∷ stops metrics_server ∷ stops process_supervisor ∷ stops redis ∷ []

-- the locals, last first
abbrev pub unwound : List Step
unwound =
    destroys redis
    ∷ destroys process_supervisor
    ∷ destroys resource_manager
    ∷ destroys log_agg
    ∷ destroys health_monitor
    ∷ destroys metrics_server
    ∷ destroys metrics
    ∷ []

-- !reg || reg->is_error()
abbrev pub is_refused : Result Response → Bool
is_refused (ok reply) = is_error reply
is_refused _ = true

unfoldable pub sandbox_id_of : ℕ → Bytes → Bytes
sandbox_id_of pid [] = text "cpp-sandbox-" ++ decimal pid
sandbox_id_of pid (c ∷ cs) = c ∷ cs

-- the loop's state when it starts
abbrev pub initial_world : {S V : Type 0} → S → Ledger → World S V
initial_world client ledger = record {
  redis = client;
  log_agg = sandobox_cpp.Log.initial;
  metrics = record { metrics = [] };
  jobs_completed = 0;
  jobs_failed = 0;
  ledger = ledger;
  readings = 0;
}

module _ (srv : Server) (d : Doubles) (clock : ℕ → ℕ) (k : Pipe) (pid : ℕ) (ledger : Ledger) where
  abbrev pub W : Type 0
  W = World srv.State d.V

  -- registered: the loop, the shutdown and the end of the scope
  unfoldable pub serve : Options → List (Machine k) → srv.State → Option (Outcome W)
  unfolding job_loop sandbox_id_of
  serve o ms s = do
    w ←
        job_loop srv d clock (sandbox_id_of pid o.sandbox_id) o.use_seccomp k ms
          (initial_world s ledger)
    some (record { code = 0; steps = begun ++ (shut_down ++ unwound); world = some w })

  unfoldable pub enter :
      Options → List (Machine k) → Result (Unit {0}) × srv.State → Option (Outcome W)
  unfolding serve
  enter o ms (ok _, s) = do
    (reg, s') ←
        srv.call
          (sandbox_register (sandbox_id_of pid o.sandbox_id) o.target_type
            (o.host ++ (text ":" ++ decimal o.port)))
          s
    if is_refused reg then some (early 1 (begun ++ unwound)) else serve o ms s'
  enter o ms (_, s) = some (early 1 (begun ++ unwound))

  -- `connect` is redis.connect of a new client
  unfoldable pub main :
      GetoptLong
      → List Bytes
      → (Bytes → ℕ → Result (Unit {0}) × srv.State)
      → List (Machine k)
      → Option (Outcome W)
  unfolding enter parse_args
  main getopt_long argv connect ms = elim (parse_args getopt_long argv) [
    | ok o ↦ if o.help then some (early 0 []) else enter o ms (connect o.host o.port)
    | _ ↦ some (early 1 [])
  ]
