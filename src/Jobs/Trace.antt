-- ===== src/Jobs/Trace.antt =====
-- A whole round: what the server sees of it, and what is counted.
use sandobox_cpp.Base.{
  ◌⊎◌, Bool, ℕ, ◌+◌, ◌-◌, ◌/◌, ◌%◌, ◌^◌, ◌≡◌, refl, sym, ap, ◌∙◌, subst, ℤ, pos, Bytes, List, [],
  ◌∷◌, ◌++◌, map, append_assoc, append-nil, take, Option, none, some, inl, inr, text, if◌then◌else◌,
}
use sandobox_cpp.Result.{Result, ok, err, out_of_fuel}
use sandobox_cpp.Redis.Response.{
  Response, nil, error, str, int, dbl, arr, Responses, as_arr, to_list,
}
use sandobox_cpp.Redis.Commands.{
  job_next, Command, job_result, job_log, sandbox_claim, sandbox_release,
}
use sandobox_cpp.Sandbox.Reading.{Pipe}
use sandobox_cpp.Sandbox.Output.{AreChunks}
use sandobox_cpp.Sandbox.Delivery.{run-Delivers}
use sandobox_cpp.Sandbox.Verdict.{reported, run_succeeds_iff}
use sandobox_cpp.Sandbox.{Sandbox, ExecResult, sandbox}
use sandobox_cpp.Jobs.Calls.{Server, ◌>>=◌, tapped}
use sandobox_cpp.Jobs.{
  Doubles, World, Machine, Job, on_output, config_of, is_zero, execute, do_job, job_of, with_array,
  take_reply, job_round,
}
use sandobox_cpp.Jobs.Round.{
  Gives, gives, Gives-bind, AnsweredJob, Gives-some, sent, Sent, begin_job-Sent, deliver-Sent,
  Counted, end_job-Sent,
}

-- The commands of a job: claimed, announced, its output chunk by chunk, its result, released.
abbrev pub transcript : Bytes → Job → List Bytes → ℤ → ℤ → List Command
transcript sandbox_id job chunks code duration =
    sandbox_claim sandbox_id job.id
    ∷ job_log job.id (text "sandbox: starting execution")
    ∷ (map (λ c. job_log job.id (take 1000 c)) chunks
        ++ (job_result job.id code duration ∷ sandbox_release sandbox_id ∷ []))

module _ (srv : Server) (d : Doubles) (clock : ℕ → ℕ) (sandbox_id : Bytes) (use_seccomp : Bool)
    (k : Pipe) where
  -- What a run of a job comes to.
  abbrev Executed :
      Machine k
      → Job
      → World (srv.State × List Command) d.V
      → ExecResult × Sandbox × World (srv.State × List Command) d.V
      → Type 0
  Executed m job w (result, box, w') =
      (chunks : List Bytes) × AreChunks chunks
      × Sent w (map (λ c. job_log job.id (take 1000 c)) chunks) w'
      × (result.exit_code ≡ reported m.answers)

  execute-Executed :
      (m : Machine k) (job : Job) (w : World (srv.State × List Command) d.V) {code duration : ℤ}
      → AnsweredJob srv sandbox_id job.id code duration
      → Gives (Executed m job w) (execute (tapped srv) d clock sandbox_id use_seccomp k m job w)
  unfolding execute
  execute-Executed m job w answered =
      let callback : Option (
          Bytes
          → Option (World (srv.State × List Command) d.V)
          → Option (World (srv.State × List Command) d.V)) =
        some
          (λ line w'. w' >>= on_output (tapped srv) d clock sandbox_id use_seccomp job.id line) in
      let box = sandbox (config_of (tapped srv) d clock sandbox_id use_seccomp job) in
      let run_of = run-Delivers k job.command callback m.answers (some w) box w.ledger m.pipe in
      let verdict =
        run_succeeds_iff k job.command callback m.answers (some w) box w.ledger m.pipe run_of.ran
          run_of.returned in
      let there =
        deliver-Sent srv d clock sandbox_id use_seccomp job.id w [] run_of.chunks (some w)
          answered.logs (gives {a = w} (sym (append-nil (sent w)), refl, refl)) in
      rw (run_of.returned, execute, run_of.delivered)
        (Gives-bind there λ w1 h. gives (run_of.chunks, run_of.are_chunks, h, verdict.2))

  -- the milliseconds of a round
  abbrev pub spent : Machine k → ℤ
  spent m = pos ((m.ended - m.started) / 1000000)

  -- The commands of the job are answered, with what the machine makes of it.
  abbrev pub Answers : Machine k → Job → Type 0
  Answers m job = AnsweredJob srv sandbox_id job.id (reported m.answers) (spent m)

  -- A job that was received has been run and reported, and counted by its exit code.
  abbrev pub Worked :
      Machine k
      → Job
      → List Command
      → World (srv.State × List Command) d.V
      → World (srv.State × List Command) d.V
      → Type 0
  Worked m job asked w w' =
      (chunks : List Bytes) × AreChunks chunks
      × (sent w' ≡ asked ++ transcript sandbox_id job chunks (reported m.answers) (spent m))
      × Counted (reported m.answers) w w'

  do_job-Worked :
      (m : Machine k) (job : Job) (w : World (srv.State × List Command) d.V)
      → Answers m job
      → Gives
          (Worked m job (sent w) w)
          (do_job (tapped srv) d clock sandbox_id use_seccomp k m job w)
  unfolding do_job
  do_job-Worked m job w answered =
      let duration = spent m in
      Gives-bind (begin_job-Sent srv d clock sandbox_id use_seccomp job w answered)
        λ w1 (s1, c1, f1).
          Gives-bind (execute-Executed m job w1 answered)
            λ (result, box, w2) (chunks, are, (s2, c2, f2), same).
              let begun =
                sandbox_claim sandbox_id job.id
                ∷ job_log job.id (text "sandbox: starting execution")
                ∷ [] in
              let ended =
                job_result job.id result.exit_code duration ∷ sandbox_release sandbox_id ∷ [] in
              let logged : List Bytes → List Command = map (λ c. job_log job.id (take 1000 c)) in
              Gives-bind
                (end_job-Sent srv d clock sandbox_id use_seccomp job result.exit_code duration w2 (
                  subst (λ code. AnsweredJob srv sandbox_id job.id code duration) (sym same)
                    answered))
                λ w3 (s3, (c3, f3)). gives (
                  chunks,
                  are,
                  subst (λ code. sent w3 ≡ sent w ++ transcript sandbox_id job chunks code duration)
                      same
                      (s3
                        ∙ (ap (λ l. l ++ ended) (s2 ∙ ap (λ l. l ++ logged chunks) s1)
                            ∙ (append_assoc (sent w ++ begun) (logged chunks) ended
                                ∙ append_assoc (sent w) begun (logged chunks ++ ended)))),
                  subst (λ code. Counted code w w3) same
                      (
                        c3
                            ∙ ap (λ n. if is_zero result.exit_code then (n + 1) % 2 ^ 64 else n)
                                (c2 ∙ c1),
                        f3
                            ∙ ap (λ n. if is_zero result.exit_code then n else (n + 1) % 2 ^ 64)
                                (f2 ∙ f1),
                      ),
                )

  -- the job that a reply has
  abbrev pub job_in : Result Response → Option Job
  job_in (ok reply) = job_of (as_arr reply)
  job_in _ = none

  -- There is no job and nothing happens, or it has been done.
  abbrev pub Done :
      Machine k
      → Result Response
      → List Command
      → World (srv.State × List Command) d.V
      → World (srv.State × List Command) d.V
      → Type 0
  Done m reply asked w w' =
      ((job_in reply ≡ none)
        × (sent w' ≡ asked)
        × (w'.jobs_completed ≡ w.jobs_completed)
        × (w'.jobs_failed ≡ w.jobs_failed))
      ⊎ ((job : Job) × (job_in reply ≡ some job) × Worked m job asked w w')

  idle :
      (m : Machine k) (reply : Result Response) (pause : ℕ)
      (w : World (srv.State × List Command) d.V)
      → job_in reply ≡ none
      → Gives (λ (p, w'). Done m reply (sent w) w w') (some (pause, w))
  idle m reply pause w e = gives (inl (e, refl, refl, refl))

  with_array-Done :
      (m : Machine k) (xs : Responses) (w : World (srv.State × List Command) d.V)
      (found : Option Job)
      → job_of (to_list xs) ≡ found
      → ((job : Job) → found ≡ some job → Answers m job)
      → Gives
          (λ (p, w'). Done m (ok (arr xs)) (sent w) w w')
          (with_array (tapped srv) d clock sandbox_id use_seccomp k m found w)
  with_array-Done m xs w none e answered = idle m (ok (arr xs)) 0 w e
  with_array-Done m xs w (some job) e answered =
      Gives-bind (do_job-Worked m job w (answered job refl)) λ w1 h. gives (inr (job, e, h))

  take_reply-Done :
      (m : Machine k) (reply : Result Response) (w : World (srv.State × List Command) d.V)
      → ((job : Job) → job_in reply ≡ some job → Answers m job)
      → Gives
          (λ (p, w'). Done m reply (sent w) w w')
          (take_reply (tapped srv) d clock sandbox_id use_seccomp k m reply w)
  unfolding take_reply job_of
  take_reply-Done m (ok nil) w answered = idle m (ok nil) 500 w refl
  take_reply-Done m (ok (error code message)) w answered =
      idle m (ok (error code message)) 1000 w refl
  take_reply-Done m (ok (str s)) w answered = idle m (ok (str s)) 0 w refl
  take_reply-Done m (ok (int n)) w answered = idle m (ok (int n)) 0 w refl
  take_reply-Done m (ok (dbl bits)) w answered = idle m (ok (dbl bits)) 0 w refl
  take_reply-Done m (ok (arr xs)) w answered =
      with_array-Done m xs w (job_of (to_list xs)) refl answered
  take_reply-Done m (err e) w answered = idle m (err e) 500 w refl
  take_reply-Done m out_of_fuel w answered = idle m out_of_fuel 500 w refl

  pub job_round_reports :
      (m : Machine k) (w : World (srv.State × List Command) d.V) (reply : Result Response)
      (s : srv.State)
      → srv.call job_next w.redis.0 ≡ some (reply, s)
      → ((job : Job) → job_in reply ≡ some job → Answers m job)
      → (next : ℕ × World (srv.State × List Command) d.V) × (job_round
            (tapped srv)
            d
            clock
            sandbox_id
            use_seccomp
            k
            m
            w
          ≡ some next)
        × Done m reply (sent w ++ job_next ∷ []) w next.1
  unfolding job_round
  job_round_reports m w reply s e answered =
      rw (e, job_round) (Gives-some (take_reply-Done m reply _ answered))
