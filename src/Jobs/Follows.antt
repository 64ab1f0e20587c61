-- ===== src/Jobs/Follows.antt =====
-- The job loop over two clients: where the one answers whatever the other answers, the loop over the one
-- does what the loop over the other does.
pub mod Rounds
use sandobox_cpp.Base.{
  ap, ◌∙◌, ℕ, suc, ◌+◌, ◌-◌, ◌/◌, ◌%◌, ◌^◌, ◌≡◌, refl, sym, subst, Bytes, List, [], ◌∷◌, Bool,
  Bool-cases, true, false, inl, inr, Option, none, some, Option-cases, text, pos, if◌then◌else◌, ℤ,
  take,
}
use sandobox_cpp.Result.{Result, ok, err, out_of_fuel}
use sandobox_cpp.Redis.Response.{Response, is_nil, is_error, as_arr}
use sandobox_cpp.Redis.Commands.{
  Command, job_next, job_result, job_log, sandbox_claim, sandbox_release,
}
use sandobox_cpp.Sandbox.Reading.{Pipe}
use sandobox_cpp.Sandbox.{ExecResult, Sandbox, sandbox, Ran, run, cleanup}
use sandobox_cpp.Sandbox.Alike.{RunAlike, run-RunAlike}
use sandobox_cpp.Jobs.Calls.{Server, ◌>>=◌}
use sandobox_cpp.Jobs.{
  Doubles, World, Machine, Job, Pause, say, note, note_raw, count_one, on_output, begin_job,
  config_of, is_zero, tally, measure, publish, end_job, execute, do_job, job_of, with_array,
  take_reply, job_round, job_loop,
}

-- Whatever `spec` answers, `srv` answers as well, and they stay related.
pub record Simulates (srv spec : Server) : Type 1 where
  pub Rel : srv.State → spec.State → Type 0
  pub answers :
      (c : Command) (s : srv.State) (t : spec.State) (r : Result Response) (t' : spec.State)
      → Rel s t
      → spec.call c t ≡ some (r, t')
      → (s' : srv.State) × (srv.call c s ≡ some (r, s')) × Rel s' t'

-- The second has no value, or both have and the values are related.
pub data Follows {A B : Type 0} (Q : A → B → Type 0) : Option A → Option B → Type 0 where
  stuck : {r : Option A} → Follows Q r none
  both : {a : A} {b : B} → Q a b → Follows Q (some a) (some b)

pub Follows-bind :
    {A B A' B' : Type 0} {Q : A → B → Type 0} {P : A' → B' → Type 0} {r : Option A} {t : Option B}
    {f : A → Option A'} {g : B → Option B'}
    → Follows Q r t
    → ((a : A) (b : B) → Q a b → Follows P (f a) (g b))
    → Follows P (r >>= f) (t >>= g)
Follows-bind stuck h = stuck
Follows-bind (both q) h = h _ _ q

pub Follows-if :
    {A B : Type 0} {Q : A → B → Type 0} (b : Bool) {x y : Option A} {x' y' : Option B}
    → Follows Q x x'
    → Follows Q y y'
    → Follows Q (if b then x else y) (if b then x' else y')
Follows-if true hx hy = hx
Follows-if false hx hy = hy

-- v, with the client s
abbrev pub put : {S T V : Type 0} → S → World T V → World S V
put s v = record {
  redis = s;
  log_agg = v.log_agg;
  metrics = v.metrics;
  jobs_completed = v.jobs_completed;
  jobs_failed = v.jobs_failed;
  ledger = v.ledger;
  readings = v.readings;
}

module _ {srv spec : Server} (sim : Simulates srv spec) (d : Doubles) where
  -- The two worlds differ in the client only, and there they are related.
  abbrev pub Agree : World srv.State d.V → World spec.State d.V → Type 0
  Agree w v = (s : srv.State) × sim.Rel s v.redis × (w ≡ put s v)

  pub Agree-bind :
      {A B : Type 0} {P : A → B → Type 0} {r : Option (World srv.State d.V)}
      {t : Option (World spec.State d.V)} (f : World srv.State d.V → Option A)
      (g : World spec.State d.V → Option B)
      → Follows Agree r t
      → ((s : srv.State) (v : World spec.State d.V)
          → sim.Rel s v.redis
          → Follows P (f (put s v)) (g v))
      → Follows P (r >>= f) (t >>= g)
  Agree-bind {P = P} f g h next =
      Follows-bind h λ w v (s, rel, e). subst (λ x. Follows P (f x) (g v)) (sym e) (next s v rel)

  -- A loop that follows one that goes through goes through.
  pub Follows-some :
      {r : Option (World srv.State d.V)} {t : Option (World spec.State d.V)}
      {v : World spec.State d.V}
      → Follows Agree r t
      → t ≡ some v
      → (s : srv.State) × (r ≡ some (put s v)) × sim.Rel s v.redis
  Follows-some stuck e = cc e
  Follows-some {v = v} (both {b = b} (s, rel, e')) e =
      let same : b ≡ v = cc e in
      (s, ap some e' ∙ ap (λ x. some (put s x)) same, subst (λ x. sim.Rel s x.redis) same rel)

module _ {srv spec : Server} (sim : Simulates srv spec) (d : Doubles) (clock : ℕ → ℕ)
    (sandbox_id : Bytes) (use_seccomp : Bool) where
  pub say-Follows :
      (c : Command) (s : srv.State) (v : World spec.State d.V)
      → sim.Rel s v.redis
      → Follows
          (Agree sim d)
          (say srv d clock sandbox_id use_seccomp c (put s v))
          (say spec d clock sandbox_id use_seccomp c v)
  unfolding say
  say-Follows c s v rel = elim (Option-cases (spec.call c v.redis)) [
    | inl e ↦ rw (e, say) stuck
    | inr ((r, t), e) ↦
        let (s', e', rel') = sim.answers c s v.redis r t rel e in
        rw (e, e', say) (both (s', rel', refl))
  ]

  pub on_output-Follows :
      (job_id line : Bytes) (s : srv.State) (v : World spec.State d.V)
      → sim.Rel s v.redis
      → Follows
          (Agree sim d)
          (on_output srv d clock sandbox_id use_seccomp job_id line (put s v))
          (on_output spec d clock sandbox_id use_seccomp job_id line v)
  unfolding on_output note_raw
  on_output-Follows job_id line s v rel =
      Agree-bind sim d _ _ (say-Follows (job_log job_id (take 1000 line)) s v rel)
        λ s1 v1 rel1. both (s1, rel1, refl)

  pub begin_job-Follows :
      (job : Job) (s : srv.State) (v : World spec.State d.V)
      → sim.Rel s v.redis
      → Follows
          (Agree sim d)
          (begin_job srv d clock sandbox_id use_seccomp job (put s v))
          (begin_job spec d clock sandbox_id use_seccomp job v)
  unfolding begin_job note count_one
  begin_job-Follows job s v rel =
      Agree-bind sim d _ _ (say-Follows (sandbox_claim sandbox_id job.id) s _ rel)
        λ s1 v1 rel1. say-Follows (job_log job.id (text "sandbox: starting execution")) s1 v1 rel1

  tally-put :
      (job : Job) (code duration : ℤ) (s : srv.State) (v : World spec.State d.V)
      → (tally srv d clock sandbox_id use_seccomp job code duration (put s v)
          ≡ put s (tally spec d clock sandbox_id use_seccomp job code duration v))
        × ((tally spec d clock sandbox_id use_seccomp job code duration v).redis ≡ v.redis)
  unfolding tally note
  tally-put job code duration s v = elim (Bool-cases (is_zero code)) [
    | inl e ↦ rw (e, tally) (refl, refl)
    | inr e ↦ rw (e, tally) (refl, refl)
  ]

  pub end_job-Follows :
      (job : Job) (code duration : ℤ) (s : srv.State) (v : World spec.State d.V)
      → sim.Rel s v.redis
      → Follows
          (Agree sim d)
          (end_job srv d clock sandbox_id use_seccomp job code duration (put s v))
          (end_job spec d clock sandbox_id use_seccomp job code duration v)
  unfolding end_job publish measure count_one
  end_job-Follows job code duration s v rel =
      Agree-bind sim d _ _ (say-Follows (job_result job.id code duration) s v rel) λ s1 v1 rel1.
        let measured = measure spec d clock sandbox_id use_seccomp job code duration v1 in
        let (same, kept) = tally-put job code duration s1 measured in
        let counted = tally spec d clock sandbox_id use_seccomp job code duration measured in
        subst
          (λ x.
            Follows (Agree sim d)
              (say srv d clock sandbox_id use_seccomp (sandbox_release sandbox_id)
                (publish srv d clock sandbox_id use_seccomp x))
              (say spec d clock sandbox_id use_seccomp (sandbox_release sandbox_id)
                (publish spec d clock sandbox_id use_seccomp counted)))
          (sym same)
          (say-Follows (sandbox_release sandbox_id) s1
            (publish spec d clock sandbox_id use_seccomp counted)
            (subst (sim.Rel s1) (sym kept) rel1))
