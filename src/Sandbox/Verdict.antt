-- ===== src/Sandbox/Verdict.antt =====
-- The exit code and the error text of run, on every branch.
use sandobox_cpp.Base.{
  ℤ, negsuc, if◌then◌else◌, ℕ, suc, ◌≡◌, ◌↔◌, refl, ◌⊎◌, inl, inr, pos, Bytes, [], ◌∷◌, ◌++◌,
  length, true, Option, none, some, text, arith,
}
use sandobox_cpp.Result.{ok, Ensures, returns, Ensures-ok}
use sandobox_cpp.Sandbox.Reading.{Pipe}
use sandobox_cpp.Sandbox.Output.{read_loop-Reads}
use sandobox_cpp.Sandbox.{
  Sandbox, Ledger, WaitStatus, exited, signaled, neither, unwritten, Answers, Ran, exit_code_of,
  spawn_of, watch, launch, launch_on, run, launched,
}

-- The statuses that run reads as success: an exit with 0, and one that waitpid has not written.
abbrev pub ReadsSuccess : WaitStatus → Type 0
ReadsSuccess status = (status ≡ exited 0) ⊎ (status ≡ unwritten)

exit_code_of-eq-zero_iff :
    (status : WaitStatus) → (exit_code_of status ≡ pos 0) ↔ ReadsSuccess status
unfolding exit_code_of
exit_code_of-eq-zero_iff (exited n) =
    ((λ e. inl (cc e)), λ h. elim h [ inl e ↦ cc e | inr e ↦ absurd (cc e) ])
exit_code_of-eq-zero_iff (signaled n) = ground arith
exit_code_of-eq-zero_iff neither = ground arith
exit_code_of-eq-zero_iff unwritten = ((λ _. inr refl), λ _. refl)

-- The exit code of a run.
abbrev pub reported : Answers → ℤ
reported a = if launched a then exit_code_of a.status else negsuc 0

-- What a caller learns from the exit code and the error text.
abbrev Verdict : {k : Pipe} {W : Type 0} → Answers → Ran k W → Type 0
Verdict a ran =
    ((ran.result.exit_code ≡ pos 0) ↔ ((launched a ≡ true) × ReadsSuccess a.status))
    × ((ran.result.err ≡ []) ↔ (launched a ≡ true))
    × (ran.result.exit_code ≡ reported a)

module _ (k : Pipe) {W : Type 0} (command : Bytes) (output_fn : Option (Bytes → W → W)) where
  watch-Verdict :
      (a : Answers) (block wr pid : ℕ) (w : W) (s : Sandbox) (l : Ledger) (p : k.State)
      → launched a ≡ true
      → Ensures (Verdict a) (watch k a command output_fn block wr pid w s l p)
  unfolding watch
  watch-Verdict a block wr pid w s l p e =
      let reads = read_loop-Reads k output_fn (suc (length (k.pending p))) [] w p (omega arith) in
      let zero = exit_code_of-eq-zero_iff a.status in
      rw reads.returned
        (returns (((λ z. (e, zero.0 z)), λ (_, z). zero.1 z), ((λ _. e), λ _. refl), rw e refl))

  run-Verdict :
      (a : Answers) (w : W) (s : Sandbox) (l : Ledger) (p : k.State)
      → Ensures (Verdict a) (run k a command output_fn w s l p)
  unfolding run launch_on launch
  run-Verdict a w s l p = from a.pipe a.stack a.clone
    where
      from :
          (pipe : Option (ℕ × ℕ)) (stack : Option ℕ) (clone : Bytes ⊎ ℕ)
          → Ensures (Verdict (record a { pipe = pipe; stack = stack; clone = clone })) (
              run k
                (record a { pipe = pipe; stack = stack; clone = clone })
                command
                output_fn
                w
                s
                l
                p)
      from none stack clone =
          returns (((λ e. cc e), λ (e, _). cc e), ((λ e. cc e), λ e. cc e), refl)
      from (some (rd, wr)) none clone =
          returns (((λ e. cc e), λ (e, _). cc e), ((λ e. cc e), λ e. cc e), refl)
      from (some (rd, wr)) (some block) (inl reason) =
          returns (((λ e. cc e), λ (e, _). cc e), ((λ e. cc e), λ e. cc e), refl)
      from (some (rd, wr)) (some block) (inr pid) =
          watch-Verdict (record a { pipe = some (rd, wr); stack = some block; clone = inr pid })
            block wr pid w
            (record s {
              cgroup_path = text "/devops-" ++ s.config.id;
              pipe_read = some rd;
              pipe_write = some wr;
            })
            (record l {
              open_fds = rd ∷ wr ∷ l.open_fds;
              blocks = block ∷ l.blocks;
              spawned =
                  spawn_of block wr command
                    (record s { cgroup_path = text "/devops-" ++ s.config.id })
                  ∷ l.spawned;
            })
            p refl

  -- A run that returns reports the exit code 0 exactly if the pipe, the stack and the child are had, and the
  -- child exits by itself with 0 or waitpid fails, whose result is not read: a signal, a stop or any failure
  -- to start the command is told from success, and an unknown end is not. There is an error text exactly if
  -- the command is not started. The code is that of the status, or -1 for a command that is not started.
  pub run_succeeds_iff :
      (a : Answers) (w : W) (s : Sandbox) (l : Ledger) (p : k.State) (ran : Ran k W)
      → run k a command output_fn w s l p ≡ ok ran
      → ((ran.result.exit_code ≡ pos 0) ↔ ((launched a ≡ true) × ReadsSuccess a.status))
        × ((ran.result.err ≡ []) ↔ (launched a ≡ true))
        × (ran.result.exit_code ≡ reported a)
  run_succeeds_iff a w s l p ran e = Ensures-ok (run-Verdict a w s l p) e
