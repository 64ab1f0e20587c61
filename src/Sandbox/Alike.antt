-- ===== src/Sandbox/Alike.antt =====
-- run with two callers: where their callbacks keep them related, they end related, and all else of the
-- two runs is the same.
use sandobox_cpp.Base.{
  ℕ, zero, suc, Bytes, [], ◌∷◌, ◌++◌, ◌⊎◌, inl, inr, length, Option, none, some, Option-cases, text,
  pos, close_fd,
}
use sandobox_cpp.Result.{Result, ok, out_of_fuel, ◌>>=◌}
use sandobox_cpp.Sandbox.Reading.{Pipe, read_loop}
use sandobox_cpp.Sandbox.{
  ExecResult, Sandbox, Ledger, Answers, Ran, reap, spawn_of, watch, launch, launch_on, run,
}

module _ {W V : Type 0} (Q : W → V → Type 0) where
  data ReadAlike {S : Type 0} : Result (Bytes × W × S) → Result (Bytes × V × S) → Type 0 where
    same :
        {out : Bytes} {w : W} {v : V} {p : S} → Q w v → ReadAlike (ok (out, w, p)) (ok (out, v, p))
    spent : ReadAlike out_of_fuel out_of_fuel

  -- The two runs have the same result, sandbox, ledger and pipe.
  pub data RunAlike {k : Pipe} : Result (Ran k W) → Result (Ran k V) → Type 0 where
    same :
        {r : ExecResult} {s : Sandbox} {l : Ledger} {p : k.State} {w : W} {v : V}
        → Q w v
        → RunAlike
            (ok (record { result = r; caller = w; after = s; ledger = l; stream = p }))
            (ok (record { result = r; caller = v; after = s; ledger = l; stream = p }))
    spent : RunAlike out_of_fuel out_of_fuel

module _ (k : Pipe) {W V : Type 0} (Q : W → V → Type 0) (f : Bytes → W → W)
    (g : Bytes → V → V) where
  read_loop-ReadAlike :
      ((c : Bytes) (w : W) (v : V) → Q w v → Q (f c w) (g c v))
      → (fuel : ℕ) (out : Bytes) (w : W) (v : V) (p : k.State) → Q w v
      → ReadAlike Q (read_loop k (some f) fuel out w p) (read_loop k (some g) fuel out v p)
  unfolding read_loop
  read_loop-ReadAlike step zero out w v p h = ReadAlike.spent
  read_loop-ReadAlike step (suc fuel) out w v p h = elim (Option-cases (k.read p 4095).0) [
    | inl e ↦ rw (e, read_loop) (ReadAlike.same h)
    | inr ([], e) ↦ rw (e, read_loop) (ReadAlike.same h)
    | inr (b ∷ bs, e) ↦
        rw (e, read_loop)
          (read_loop-ReadAlike step fuel (out ++ b ∷ bs) (f (b ∷ bs) w) (g (b ∷ bs) v)
            (k.read p 4095).1 (step (b ∷ bs) w v h))
  ]

  reap-RunAlike :
      (a : Answers) (command : Bytes) (block pid : ℕ) (s : Sandbox) (l : Ledger)
      {r : Result (Bytes × W × k.State)} {r' : Result (Bytes × V × k.State)}
      → ReadAlike Q r r'
      → RunAlike Q
          (r >>= λ read. ok (reap k a command (some f) block pid s l read))
          (r' >>= λ read. ok (reap k a command (some g) block pid s l read))
  unfolding reap
  reap-RunAlike a command block pid s l (ReadAlike.same h) = RunAlike.same h
  reap-RunAlike a command block pid s l ReadAlike.spent = RunAlike.spent

  watch-RunAlike :
      ((c : Bytes) (w : W) (v : V) → Q w v → Q (f c w) (g c v))
      → (a : Answers) (command : Bytes) (block wr pid : ℕ) (w : W) (v : V) (s : Sandbox)
        (l : Ledger) (p : k.State)
      → Q w v
      → RunAlike Q
          (watch k a command (some f) block wr pid w s l p)
          (watch k a command (some g) block wr pid v s l p)
  unfolding watch
  watch-RunAlike step a command block wr pid w v s l p h =
      reap-RunAlike a command block pid (record s { pipe_write = none; child_pid = pos pid })
        (record l { open_fds = close_fd wr l.open_fds })
        (read_loop-ReadAlike step (suc (length (k.pending p))) [] w v p h)

  pub run-RunAlike :
      ((c : Bytes) (w : W) (v : V) → Q w v → Q (f c w) (g c v))
      → (a : Answers) (command : Bytes) (w : W) (v : V) (s : Sandbox) (l : Ledger) (p : k.State)
      → Q w v
      → RunAlike Q (run k a command (some f) w s l p) (run k a command (some g) v s l p)
  unfolding run launch_on launch
  run-RunAlike step a command w v s l p h =
      from a.pipe a.stack a.clone (λ answers block wr pid s' l'.
        watch-RunAlike step answers command block wr pid w v s' l' p h)
    where
      from :
          (pipe : Option (ℕ × ℕ)) (stack : Option ℕ) (clone : Bytes ⊎ ℕ)
          → ((answers : Answers) (block wr pid : ℕ) (s' : Sandbox) (l' : Ledger)
              → RunAlike Q
                  (watch k answers command (some f) block wr pid w s' l' p)
                  (watch k answers command (some g) block wr pid v s' l' p))
          → RunAlike Q
              (run k
                (record a { pipe = pipe; stack = stack; clone = clone })
                command
                (some f)
                w
                s
                l
                p)
              (run k
                (record a { pipe = pipe; stack = stack; clone = clone })
                command
                (some g)
                v
                s
                l
                p)
      from none stack clone watched = RunAlike.same h
      from (some (rd, wr)) none clone watched = RunAlike.same h
      from (some (rd, wr)) (some block) (inl reason) watched = RunAlike.same h
      from (some (rd, wr)) (some block) (inr pid) watched =
          watched (record a { pipe = some (rd, wr); stack = some block; clone = inr pid }) block wr
            pid
            (record s {
              cgroup_path = text "/devops-" ++ s.config.id;
              pipe_read = some rd;
              pipe_write = some wr;
            })
            (record l {
              open_fds = rd ∷ wr ∷ l.open_fds;
              blocks = block ∷ l.blocks;
              spawned =
                  spawn_of block wr command
                    (record s { cgroup_path = text "/devops-" ++ s.config.id })
                  ∷ l.spawned;
            })
