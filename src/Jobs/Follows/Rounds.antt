-- ===== src/Jobs/Follows/Rounds.antt =====
-- A round of the job loop of sandbox/src/main.cpp, and the loop, over two clients where the one answers
-- whatever the other answers.
use sandobox_cpp.Base.{
  ℕ, ◌-◌, ◌/◌, ◌≡◌, refl, sym, subst, Bytes, List, [], ◌∷◌, Bool, inl, inr, Option, none, some,
  Option-cases, pos,
}
use sandobox_cpp.Result.{Result, ok, err, out_of_fuel}
use sandobox_cpp.Redis.Response.{Response, is_nil, is_error, as_arr}
use sandobox_cpp.Redis.Commands.{job_next}
use sandobox_cpp.Sandbox.Reading.{Pipe}
use sandobox_cpp.Sandbox.{ExecResult, Sandbox, sandbox, Ran, cleanup}
use sandobox_cpp.Sandbox.Alike.{RunAlike, run-RunAlike}
use sandobox_cpp.Jobs.Calls.{Server, ◌>>=◌}
use sandobox_cpp.Jobs.{
  Doubles, World, Machine, Job, Pause, on_output, config_of, execute, do_job, job_of, with_array,
  take_reply, job_round, job_loop,
}
use sandobox_cpp.Jobs.Follows.{
  Simulates, Follows, stuck, both, Follows-bind, Follows-if, put, Agree, Agree-bind,
  on_output-Follows, begin_job-Follows, end_job-Follows,
}

module _ {srv spec : Server} (sim : Simulates srv spec) (d : Doubles) (clock : ℕ → ℕ)
    (sandbox_id : Bytes) (use_seccomp : Bool) (k : Pipe) where
  -- The values of execute and of a round agree as well.
  abbrev AgreeRun :
      ExecResult × Sandbox × World srv.State d.V
      → ExecResult × Sandbox × World spec.State d.V
      → Type 0
  AgreeRun (r, box, w) (r', box', v) = (r ≡ r') × (box ≡ box') × Agree sim d w v

  abbrev pub AgreeRound : Pause × World srv.State d.V → Pause × World spec.State d.V → Type 0
  AgreeRound (pause, w) (pause', v) = (pause ≡ pause') × Agree sim d w v

  AgreeRun-bind :
      {A B : Type 0} {P : A → B → Type 0} {r : Option (ExecResult × Sandbox × World srv.State d.V)}
      {t : Option (ExecResult × Sandbox × World spec.State d.V)}
      (f : ExecResult × Sandbox × World srv.State d.V → Option A)
      (g : ExecResult × Sandbox × World spec.State d.V → Option B)
      → Follows AgreeRun r t
      → ((x : ExecResult) (box : Sandbox) (s : srv.State) (v : World spec.State d.V)
          → sim.Rel s v.redis
          → Follows P (f (x, box, put s v)) (g (x, box, v)))
      → Follows P (r >>= f) (t >>= g)
  AgreeRun-bind {P = P} f g h next =
      Follows-bind h λ (x, box, w) (x', box', v) (ex, eb, (s, rel, e)).
        let same : (x, box, w) ≡ (x', box', put s v) = λ i. (ex i, eb i, e i) in
        subst (λ y. Follows P (f y) (g (x', box', v))) (sym same) (next x' box' s v rel)

  AgreeRound-bind :
      {A B : Type 0} {P : A → B → Type 0} {r : Option (Pause × World srv.State d.V)}
      {t : Option (Pause × World spec.State d.V)} (f : Pause × World srv.State d.V → Option A)
      (g : Pause × World spec.State d.V → Option B)
      → Follows AgreeRound r t
      → ((pause : Pause) (s : srv.State) (v : World spec.State d.V)
          → sim.Rel s v.redis
          → Follows P (f (pause, put s v)) (g (pause, v)))
      → Follows P (r >>= f) (t >>= g)
  AgreeRound-bind {P = P} f g h next = Follows-bind h λ (pause, w) (pause', v) (ep, (s, rel, e)).
      let same : (pause, w) ≡ (pause', put s v) = λ i. (ep i, e i) in
      subst (λ y. Follows P (f y) (g (pause', v))) (sym same) (next pause' s v rel)

  ran-Follows :
      {r : Result (Ran k (Option (World srv.State d.V)))}
      {t : Result (Ran k (Option (World spec.State d.V)))}
      → RunAlike (Follows (Agree sim d)) r t
      → Follows AgreeRun
          (elim r [
            | ok ran ↦
                (ran.caller >>= λ w1.
                some (ran.result, ran.after, record w1 { ledger = ran.ledger }))
            | _ ↦ none
          ])
          (elim t [
            | ok ran ↦
                (ran.caller >>= λ w1.
                some (ran.result, ran.after, record w1 { ledger = ran.ledger }))
            | _ ↦ none
          ])
  ran-Follows (RunAlike.same h) =
      Agree-bind sim d _ _ h λ s v rel. both (refl, refl, (s, rel, refl))
  ran-Follows RunAlike.spent = stuck

  execute-Follows :
      (m : Machine k) (job : Job) (s : srv.State) (v : World spec.State d.V)
      → sim.Rel s v.redis
      → Follows AgreeRun
          (execute srv d clock sandbox_id use_seccomp k m job (put s v))
          (execute spec d clock sandbox_id use_seccomp k m job v)
  unfolding execute
  execute-Follows m job s v rel = ran-Follows (
      run-RunAlike k (Follows (Agree sim d))
        (λ line w'. w' >>= on_output srv d clock sandbox_id use_seccomp job.id line)
        (λ line w'. w' >>= on_output spec d clock sandbox_id use_seccomp job.id line)
        (λ line w' v' h.
          Agree-bind sim d _ _ h λ s1 v1 rel1.
            on_output-Follows sim d clock sandbox_id use_seccomp job.id line s1 v1 rel1)
        m.answers job.command (some (put s v)) (some v)
        (sandbox (config_of spec d clock sandbox_id use_seccomp job)) v.ledger m.pipe
        (both (s, rel, refl)))

  do_job-Follows :
      (m : Machine k) (job : Job) (s : srv.State) (v : World spec.State d.V)
      → sim.Rel s v.redis
      → Follows
          (Agree sim d)
          (do_job srv d clock sandbox_id use_seccomp k m job (put s v))
          (do_job spec d clock sandbox_id use_seccomp k m job v)
  unfolding do_job cleanup
  do_job-Follows m job s v rel =
      Agree-bind sim d _ _ (begin_job-Follows sim d clock sandbox_id use_seccomp job s v rel)
        λ s1 v1 rel1. AgreeRun-bind _ _ (execute-Follows m job s1 v1 rel1) λ r box s2 v2 rel2.
          Agree-bind sim d _ _
            (end_job-Follows sim d clock sandbox_id use_seccomp job r.exit_code
              (pos ((m.ended - m.started) / 1000000)) s2 v2 rel2)
            λ s3 v3 rel3. both (s3, rel3, refl)

  with_array-Follows :
      (m : Machine k) (found : Option Job) (s : srv.State) (v : World spec.State d.V)
      → sim.Rel s v.redis
      → Follows AgreeRound
          (with_array srv d clock sandbox_id use_seccomp k m found (put s v))
          (with_array spec d clock sandbox_id use_seccomp k m found v)
  with_array-Follows m none s v rel = both (refl, (s, rel, refl))
  with_array-Follows m (some job) s v rel =
      Agree-bind sim d _ _ (do_job-Follows m job s v rel)
        λ s1 v1 rel1. both (refl, (s1, rel1, refl))

  take_reply-Follows :
      (m : Machine k) (reply : Result Response) (s : srv.State) (v : World spec.State d.V)
      → sim.Rel s v.redis
      → Follows AgreeRound
          (take_reply srv d clock sandbox_id use_seccomp k m reply (put s v))
          (take_reply spec d clock sandbox_id use_seccomp k m reply v)
  unfolding take_reply
  take_reply-Follows m (ok reply) s v rel =
      Follows-if (is_nil reply) (both (refl, (s, rel, refl))) (
        Follows-if (is_error reply) (both (refl, (s, rel, refl)))
          (with_array-Follows m (job_of (as_arr reply)) s v rel))
  take_reply-Follows m (err e) s v rel = both (refl, (s, rel, refl))
  take_reply-Follows m out_of_fuel s v rel = both (refl, (s, rel, refl))

  job_round-Follows :
      (m : Machine k) (s : srv.State) (v : World spec.State d.V)
      → sim.Rel s v.redis
      → Follows AgreeRound
          (job_round srv d clock sandbox_id use_seccomp k m (put s v))
          (job_round spec d clock sandbox_id use_seccomp k m v)
  unfolding job_round
  job_round-Follows m s v rel = elim (Option-cases (spec.call job_next v.redis)) [
    | inl e ↦ rw (e, job_round) stuck
    | inr ((r, t), e) ↦
        let (s', e', rel') = sim.answers job_next s v.redis r t rel e in
        rw (e, e', job_round) (take_reply-Follows m r s' (put t v) rel')
  ]

  -- Where the second loop goes through, the first does, and the worlds that they end in differ in the
  -- client only, and there they are related.
  pub job_loop-Follows :
      (ms : List (Machine k)) (s : srv.State) (v : World spec.State d.V)
      → sim.Rel s v.redis
      → Follows
          (Agree sim d)
          (job_loop srv d clock sandbox_id use_seccomp k ms (put s v))
          (job_loop spec d clock sandbox_id use_seccomp k ms v)
  unfolding job_loop
  job_loop-Follows [] s v rel = both (s, rel, refl)
  job_loop-Follows (m ∷ ms) s v rel =
      AgreeRound-bind _ _ (job_round-Follows m s v rel)
        λ pause s1 v1 rel1. job_loop-Follows ms s1 v1 rel1
