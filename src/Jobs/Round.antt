-- ===== src/Jobs/Round.antt =====
-- The commands that the parts of a round send, in order.
use sandobox_cpp.Base.{
  none, Bool, Bool-cases, ℕ, ◌+◌, ◌%◌, ◌^◌, ◌≡◌, ◌≢◌, refl, ap, ◌∙◌, ℤ, Bytes, List, [], ◌∷◌, ◌++◌,
  map, append_assoc, append-nil, take, Option, some, Option-cases, inl, inr, text, if◌then◌else◌,
}
use sandobox_cpp.Redis.Commands.{Command, job_result, job_log, sandbox_claim, sandbox_release}
use sandobox_cpp.Sandbox.Output.{deliver}
use sandobox_cpp.Jobs.Calls.{Server, ◌>>=◌, tapped}
use sandobox_cpp.Jobs.{
  Doubles, World, Job, say, note, note_raw, count_one, on_output, begin_job, is_zero, tally,
  measure, publish, end_job,
}

-- There is a value, and P holds of it.
pub data Gives {A : Type 0} (P : A → Type 0) : Option A → Type 0 where
  gives : {a : A} → P a → Gives P (some a)

pub Gives-bind :
    {A B : Type 0} {P : A → Type 0} {Q : B → Type 0} {r : Option A} {f : A → Option B}
    → Gives P r
    → ((a : A) → P a → Gives Q (f a))
    → Gives Q (r >>= f)
Gives-bind (gives {a = a} h) k = k a h

pub Gives-map :
    {A : Type 0} {P Q : A → Type 0} {r : Option A} → ((a : A) → P a → Q a) → Gives P r → Gives Q r
Gives-map k (gives {a = a} h) = gives (k a h)

-- What is given, as a value.
pub Gives-some :
    {A : Type 0} {P : A → Type 0} {r : Option A} → Gives P r → (a : A) × (r ≡ some a) × P a
Gives-some (gives {a = a} h) = (a, refl, h)

-- The command's request stays inside its buffer, and it is answered, be it by an error.
abbrev pub Answered : Server → Command → Type 0
Answered srv command = (s : srv.State) → srv.call command s ≢ none

-- So is each command of a job with this result.
pub record AnsweredJob (srv : Server) (sandbox_id job_id : Bytes) (code duration : ℤ) : Type 0 where
  pub claims : Answered srv (sandbox_claim sandbox_id job_id)
  pub starts : Answered srv (job_log job_id (text "sandbox: starting execution"))
  pub logs : (line : Bytes) → Answered srv (job_log job_id (take 1000 line))
  pub reports : Answered srv (job_result job_id code duration)
  pub releases : Answered srv (sandbox_release sandbox_id)

module _ {S V : Type 0} where
  abbrev pub sent : World (S × List Command) V → List Command
  sent w = w.redis.1

  -- The commands are sent after those of w, and no job is counted.
  abbrev pub Sent : World (S × List Command) V → List Command → World (S × List Command) V → Type 0
  Sent w commands w' =
      (sent w' ≡ sent w ++ commands)
      × (w'.jobs_completed ≡ w.jobs_completed)
      × (w'.jobs_failed ≡ w.jobs_failed)

  pub Sent-append :
      (w w1 w2 : World (S × List Command) V) (xs ys : List Command)
      → Sent w xs w1
      → Sent w1 ys w2
      → Sent w (xs ++ ys) w2
  Sent-append w w1 w2 xs ys (s, c, f) (s', c', f') =
      (s' ∙ (ap (λ l. l ++ ys) s ∙ append_assoc (sent w) xs ys), c' ∙ c, f' ∙ f)

  -- The counts after a job with this exit code.
  abbrev pub Counted : ℤ → World (S × List Command) V → World (S × List Command) V → Type 0
  Counted code w w' =
      (w'.jobs_completed
        ≡ (if is_zero code then (w.jobs_completed + 1) % 2 ^ 64 else w.jobs_completed))
      × (w'.jobs_failed ≡ (if is_zero code then w.jobs_failed else (w.jobs_failed + 1) % 2 ^ 64))

module _ (srv : Server) (d : Doubles) (clock : ℕ → ℕ) (sandbox_id : Bytes)
    (use_seccomp : Bool) where
  pub say-Sent :
      (command : Command) (w : World (srv.State × List Command) d.V)
      → Answered srv command
      → Gives (Sent w (command ∷ [])) (say (tapped srv) d clock sandbox_id use_seccomp command w)
  unfolding say
  say-Sent command w answered = elim (Option-cases (srv.call command w.redis.0)) [
    | inl e ↦ absurd (answered w.redis.0 e)
    | inr (r, e) ↦ rw e (gives (refl, refl, refl))
  ]

  on_output-Sent :
      (job_id line : Bytes) (w : World (srv.State × List Command) d.V)
      → Answered srv (job_log job_id (take 1000 line))
      → Gives
          (Sent w (job_log job_id (take 1000 line) ∷ []))
          (on_output (tapped srv) d clock sandbox_id use_seccomp job_id line w)
  unfolding on_output note_raw
  on_output-Sent job_id line w answered =
      Gives-bind (say-Sent (job_log job_id (take 1000 line)) w answered) (λ w1 h. gives h)

  pub begin_job-Sent :
      (job : Job) (w : World (srv.State × List Command) d.V) {code duration : ℤ}
      → AnsweredJob srv sandbox_id job.id code duration
      → Gives
          (Sent w (
            sandbox_claim sandbox_id job.id
            ∷ job_log job.id (text "sandbox: starting execution")
            ∷ []))
          (begin_job (tapped srv) d clock sandbox_id use_seccomp job w)
  unfolding begin_job note count_one
  begin_job-Sent job w answered =
      let log = job_log job.id (text "sandbox: starting execution") in
      Gives-bind (say-Sent (sandbox_claim sandbox_id job.id) _ answered.claims) λ w1 h.
        Gives-map
          (λ w2 h'. Sent-append w w1 w2 (sandbox_claim sandbox_id job.id ∷ []) (log ∷ []) h h')
          (say-Sent log w1 answered.starts)

  -- output_fn over the chunks of a run
  pub deliver-Sent :
      (job_id : Bytes) (w : World (srv.State × List Command) d.V) (commands : List Command)
      (chunks : List Bytes) (r : Option (World (srv.State × List Command) d.V))
      → ((line : Bytes) → Answered srv (job_log job_id (take 1000 line)))
      → Gives (Sent w commands) r
      → Gives (Sent w (commands ++ map (λ c. job_log job_id (take 1000 c)) chunks)) (
          deliver
            (some
              (λ line w'. w' >>= on_output (tapped srv) d clock sandbox_id use_seccomp job_id line))
            chunks
            r)
  deliver-Sent job_id w commands [] r answered h = rw append-nil h
  deliver-Sent job_id w commands (c ∷ cs) r answered h =
      let one = job_log job_id (take 1000 c) ∷ [] in
      rw (← append_assoc commands one (map (λ c'. job_log job_id (take 1000 c')) cs)) (
        deliver-Sent job_id w (commands ++ one) cs
          (r >>= on_output (tapped srv) d clock sandbox_id use_seccomp job_id c) answered
          (Gives-bind h λ w1 h1.
            Gives-map (λ w2 h2. Sent-append w w1 w2 commands one h1 h2)
              (on_output-Sent job_id c w1 (answered c))))

  tally-Counted :
      (job : Job) (code duration : ℤ) (w : World (srv.State × List Command) d.V)
      → (sent (tally (tapped srv) d clock sandbox_id use_seccomp job code duration w) ≡ sent w)
        × Counted code w (tally (tapped srv) d clock sandbox_id use_seccomp job code duration w)
  unfolding tally note
  tally-Counted job code duration w = elim (Bool-cases (is_zero code)) [
    | inl e ↦ rw (e, tally) (refl, (refl, refl))
    | inr e ↦ rw (e, tally) (refl, (refl, refl))
  ]

  pub end_job-Sent :
      (job : Job) (code duration : ℤ) (w : World (srv.State × List Command) d.V)
      → AnsweredJob srv sandbox_id job.id code duration
      → Gives
          (λ w'.
            (sent w'
              ≡ sent w ++ (job_result job.id code duration ∷ sandbox_release sandbox_id ∷ []))
            × Counted code w w')
          (end_job (tapped srv) d clock sandbox_id use_seccomp job code duration w)
  unfolding end_job publish measure count_one
  end_job-Sent job code duration w answered =
      let result = job_result job.id code duration in
      Gives-bind (say-Sent result w answered.reports) λ w1 (s, c, f).
        let (st, (ct, ft)) =
          tally-Counted job code duration
            (measure (tapped srv) d clock sandbox_id use_seccomp job code duration w1) in
        Gives-map
          (λ w3 (s3, c3, f3). (
            s3
                ∙ (ap (λ l. l ++ sandbox_release sandbox_id ∷ []) (st ∙ s)
                    ∙ append_assoc (sent w) (result ∷ []) (sandbox_release sandbox_id ∷ [])),
            (
              c3 ∙ (ct ∙ ap (λ n. if is_zero code then (n + 1) % 2 ^ 64 else n) c),
              f3 ∙ (ft ∙ ap (λ n. if is_zero code then n else (n + 1) % 2 ^ 64) f),
            ),
          ))
          (say-Sent (sandbox_release sandbox_id) _ answered.releases)
