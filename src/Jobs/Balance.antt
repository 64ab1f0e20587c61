-- ===== src/Jobs/Balance.antt =====
-- The whole loop: every job that is claimed is reported, released and counted.
use sandobox_cpp.Base.{
  ℕ, ◌+◌, ◌%◌, ◌^◌, ◌≡◌, refl, ap, ◌∙◌, some, inl, inr, ℤ, Bytes, List, [], ◌∷◌, ◌++◌, map, take,
  length, length-append, filter, filter-append, Bool, Bool-cases, true, false, Option-cases, arith,
}
use sandobox_cpp.Result.{Result}
use sandobox_cpp.Redis.Response.{Response}
use sandobox_cpp.Redis.Commands.{
  Command, job_next, job_result, job_log, sandbox_claim, sandbox_release,
}
use sandobox_cpp.Sandbox.Reading.{Pipe}
use sandobox_cpp.Jobs.Calls.{Server, tapped}
use sandobox_cpp.Jobs.Round.{Answered, sent, Counted}
use sandobox_cpp.Jobs.Trace.{transcript, job_in, Answers, Done, job_round_reports}
use sandobox_cpp.Jobs.{Doubles, World, Machine, Job, is_zero, job_loop}

abbrev pub is_claim : Command → Bool
is_claim (sandbox_claim id job_id) = true
is_claim _ = false

abbrev pub is_result : Command → Bool
is_result (job_result id code duration) = true
is_result _ = false

abbrev pub is_release : Command → Bool
is_release (sandbox_release id) = true
is_release _ = false

abbrev pub count : (Command → Bool) → List Command → ℕ
count p commands = length (filter p commands)

count-append :
    (p : Command → Bool) (xs ys : List Command) → count p (xs ++ ys) ≡ count p xs + count p ys
count-append p xs ys = ap length (filter-append p xs ys) ∙ length-append (filter p xs) (filter p ys)

-- The output of a job is in none of the counts.
count-logs :
    (p : Command → Bool) (job_id : Bytes) (chunks : List Bytes)
    → ((c : Bytes) → p (job_log job_id c) ≡ false)
    → count p (map (λ c. job_log job_id (take 1000 c)) chunks) ≡ 0
count-logs p job_id [] h = refl
count-logs p job_id (c ∷ cs) h = rw (h (take 1000 c)) (count-logs p job_id cs h)

count-body :
    (p : Command → Bool) (job_id : Bytes) (chunks : List Bytes) (ended : List Command)
    → ((c : Bytes) → p (job_log job_id c) ≡ false)
    → count p (map (λ c. job_log job_id (take 1000 c)) chunks ++ ended) ≡ count p ended
count-body p job_id chunks ended h =
    let logs = map (λ c. job_log job_id (take 1000 c)) chunks in
    let silent = count-logs p job_id chunks h in let both = count-append p logs ended in omega arith

module _ {S V : Type 0} where
  -- As many jobs are reported and released as are claimed, and the two counts of main add up to them,
  -- as far as 64 bits go.
  abbrev pub Balanced : World (S × List Command) V → Type 0
  Balanced w =
      (count is_claim (sent w) ≡ count is_result (sent w))
      × (count is_release (sent w) ≡ count is_result (sent w))
      × ((w.jobs_completed + w.jobs_failed) % 2 ^ 64 ≡ count is_result (sent w) % 2 ^ 64)

  Counted-sum :
      (code : ℤ) (w w' : World (S × List Command) V) (n : ℕ)
      → Counted code w w'
      → (w.jobs_completed + w.jobs_failed) % 2 ^ 64 ≡ n % 2 ^ 64
      → (w'.jobs_completed + w'.jobs_failed) % 2 ^ 64 ≡ (n + 1) % 2 ^ 64
  Counted-sum code w w' n (c, f) h = elim (Bool-cases (is_zero code)) [
    | inl e ↦
        let c' : w'.jobs_completed ≡ (w.jobs_completed + 1) % 2 ^ 64 = c ∙ rw e refl in
        let f' : w'.jobs_failed ≡ w.jobs_failed = f ∙ rw e refl in omega arith
    | inr e ↦
        let c' : w'.jobs_completed ≡ w.jobs_completed = c ∙ rw e refl in
        let f' : w'.jobs_failed ≡ (w.jobs_failed + 1) % 2 ^ 64 = f ∙ rw e refl in omega arith
  ]

  -- A job's commands keep the balance.
  transcript-Balanced :
      (sandbox_id : Bytes) (job : Job) (chunks : List Bytes) (code duration : ℤ)
      (w w' : World (S × List Command) V)
      → sent w' ≡ (sent w ++ job_next ∷ []) ++ transcript sandbox_id job chunks code duration
      → Counted code w w'
      → Balanced w
      → Balanced w'
  transcript-Balanced sandbox_id job chunks code duration w w' e counted (claims, releases, sum) =
      let added : (p : Command → Bool)
          → count p (sent w')
            ≡ (count p (sent w) + count p (job_next ∷ []))
              + count p (transcript sandbox_id job chunks code duration) =
        λ p.
          ap (count p) e
          ∙ (count-append p (sent w ++ job_next ∷ [])
                (transcript sandbox_id job chunks code duration)
              ∙ ap (λ n. n + count p (transcript sandbox_id job chunks code duration))
                  (count-append p (sent w) (job_next ∷ []))) in
      let ended = job_result job.id code duration ∷ sandbox_release sandbox_id ∷ [] in
      let c = added is_claim in
      let r = added is_result in
      let l = added is_release in
      let c' = count-body is_claim job.id chunks ended (λ _. refl) in
      let r' = count-body is_result job.id chunks ended (λ _. refl) in
      let l' = count-body is_release job.id chunks ended (λ _. refl) in
      let results : count is_result (sent w') ≡ count is_result (sent w) + 1 = omega arith in
      (
        omega arith,
        omega arith,
        rw results (Counted-sum code w w' (count is_result (sent w)) counted sum),
      )

  idle-Balanced :
      (w w' : World (S × List Command) V)
      → sent w' ≡ sent w ++ job_next ∷ []
      → w'.jobs_completed ≡ w.jobs_completed
      → w'.jobs_failed ≡ w.jobs_failed
      → Balanced w
      → Balanced w'
  idle-Balanced w w' e c f (claims, releases, sum) =
      let added : (p : Command → Bool)
          → count p (sent w') ≡ count p (sent w) + count p (job_next ∷ []) =
        λ p. ap (count p) e ∙ count-append p (sent w) (job_next ∷ []) in
      let c' = added is_claim in
      let r' = added is_result in
      let l' = added is_release in
      let results : count is_result (sent w') ≡ count is_result (sent w) = omega arith in
      (omega arith, omega arith, rw (results, c, f) sum)

module _ (srv : Server) (d : Doubles) (clock : ℕ → ℕ) (sandbox_id : Bytes) (use_seccomp : Bool)
    (k : Pipe) where
  done-Balanced :
      (m : Machine k) (reply : Result Response) (w w' : World (srv.State × List Command) d.V)
      → Done srv d clock sandbox_id use_seccomp k m reply (sent w ++ job_next ∷ []) w w'
      → Balanced w
      → Balanced w'
  done-Balanced m reply w w' (inl (none_there, s, c, f)) h = idle-Balanced w w' s c f h
  done-Balanced m reply w w' (inr (job, there, (chunks, are, s, counted))) h =
      transcript-Balanced sandbox_id job chunks _ _ w w' s counted h

  -- What any reply to job_next has as its job can be done with each of the machines: its commands are
  -- answered.
  abbrev pub AnswersAll : List (Machine k) → Type 0
  AnswersAll [] = Unit
  AnswersAll (m ∷ ms) =
      ((s s' : srv.State) (reply : Result Response) (job : Job)
        → srv.call job_next s ≡ some (reply, s')
        → job_in srv d clock sandbox_id use_seccomp k reply ≡ some job
        → Answers srv d clock sandbox_id use_seccomp k m job)
      × AnswersAll ms

  -- However many rounds the loop makes, and whatever the server replies and the sandboxes come to, where
  -- job_next and the commands of each job that the server gives are answered, be it with errors: the loop
  -- goes through, and then as many jobs have been reported and released as have been claimed, and the jobs
  -- counted as completed and as failed add up to them modulo 2^64.
  pub job_loop_balances :
      (ms : List (Machine k)) (w : World (srv.State × List Command) d.V)
      → Answered srv job_next
      → AnswersAll ms
      → Balanced w
      → (w' : World (srv.State × List Command) d.V) × (job_loop
            (tapped srv)
            d
            clock
            sandbox_id
            use_seccomp
            k
            ms
            w
          ≡ some w')
        × Balanced w'
  unfolding job_loop
  job_loop_balances [] w asks answered h = (w, refl, h)
  job_loop_balances (m ∷ ms) w asks (here, answered) h =
      elim (Option-cases (srv.call job_next w.redis.0)) [
        | inl e ↦ absurd (asks w.redis.0 e)
        | inr ((reply, s), e) ↦
            let (next, went, done) =
              job_round_reports srv d clock sandbox_id use_seccomp k m w reply s e
                (λ job there. here w.redis.0 s reply job e there) in
            rw (went, job_loop)
              (job_loop_balances ms next.1 asks answered (done-Balanced m reply w next.1 done h))
      ]
