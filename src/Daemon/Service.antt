-- ===== src/Daemon/Service.antt =====
-- A run of main that comes to its loop.
use sandobox_cpp.Base.{ℕ, ◌≡◌, refl, Bytes, List, [], ◌∷◌, ◌++◌, false, text, decimal, some}
use sandobox_cpp.Result.{Result, ok}
use sandobox_cpp.Options.{Options, GetoptLong, parse_args}
use sandobox_cpp.Redis.Response.{Response}
use sandobox_cpp.Redis.Commands.{Command, job_next, sandbox_register}
use sandobox_cpp.Sandbox.{Ledger}
use sandobox_cpp.Sandbox.Reading.{Pipe}
use sandobox_cpp.Jobs.Calls.{Server, tapped}
use sandobox_cpp.Jobs.Round.{Answered}
use sandobox_cpp.Jobs.Balance.{Balanced, AnswersAll, job_loop_balances}
use sandobox_cpp.Jobs.{Doubles, World, Machine}
use sandobox_cpp.Daemon.{Outcome, is_refused, sandbox_id_of, initial_world, serve, enter, main}

module _ (srv : Server) (d : Doubles) (clock : ℕ → ℕ) (k : Pipe) (pid : ℕ) (ledger : Ledger) where
  -- The exit code is 0, and the jobs are in balance.
  abbrev pub Served : Outcome (World (srv.State × List Command) d.V) → Type 0
  Served o =
      (o.code ≡ 0) × ((w : World (srv.State × List Command) d.V) × (o.world ≡ some w) × Balanced w)

  serve-Served :
      (o : Options) (ms : List (Machine k)) (s : srv.State × List Command)
      → Answered srv job_next
      → AnswersAll srv d clock (sandbox_id_of pid o.sandbox_id) o.use_seccomp k ms
      → Balanced {V = d.V} (initial_world s ledger)
      → (out : Outcome (World (srv.State × List Command) d.V)) × (serve
            (tapped srv)
            d
            clock
            k
            pid
            ledger
            o
            ms
            s
          ≡ some out)
        × Served out
  unfolding serve
  serve-Served o ms s asks answered h =
      let (w, went, balanced) =
        job_loop_balances srv d clock (sandbox_id_of pid o.sandbox_id) o.use_seccomp k ms
          (initial_world s ledger) asks answered h in
      rw (went, serve) (_, refl, (refl, (w, refl, balanced)))

  -- Where the command line is accepted without a request for help, the connection is made, the server
  -- accepts the registration under the sandbox's id, type and address, and job_next and the commands of each
  -- job that the server gives are answered, be it with errors: main makes its rounds and returns 0, and by
  -- then as many jobs have been reported and released as claimed, and all are counted, modulo 2^64.
  pub main_serves :
      (getopt_long : GetoptLong) (argv : List Bytes)
      (connect : Bytes → ℕ → Result (Unit {0}) × srv.State) (ms : List (Machine k)) (o : Options)
      (s s' : srv.State) (reply : Result Response)
      → parse_args getopt_long argv ≡ ok o
      → o.help ≡ false
      → connect o.host o.port ≡ (ok tt, s)
      → srv.call
          (sandbox_register
            (sandbox_id_of pid o.sandbox_id)
            o.target_type
            (o.host ++ (text ":" ++ decimal o.port)))
          s
        ≡ some (reply, s')
      → is_refused reply ≡ false
      → Answered srv job_next
      → AnswersAll srv d clock (sandbox_id_of pid o.sandbox_id) o.use_seccomp k ms
      → (out : Outcome (World (srv.State × List Command) d.V)) × (main
            (tapped srv)
            d
            clock
            k
            pid
            ledger
            getopt_long
            argv
            (λ host port. let (conn, fresh) = connect host port in (conn, (fresh, [])))
            ms
          ≡ some out)
        × Served out
  unfolding main enter
  main_serves getopt_long argv connect ms o s s' reply parsed asked connected registered accepted
        asks answered =
      let there =
        serve-Served o ms
          (
            s',
            sandbox_register (sandbox_id_of pid o.sandbox_id) o.target_type
                  (o.host ++ (text ":" ++ decimal o.port))
                ∷ [],
          )
          asks answered (refl, refl, refl) in
      rw (parsed, main, asked, connected, registered, accepted) there
