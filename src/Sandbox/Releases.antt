-- ===== src/Sandbox/Releases.antt =====
-- What run gives back, on every branch.
use sandobox_cpp.Base.{
  ℕ, suc, ◌+◌, ◌≡◌, ◌≢◌, refl, sym, ap, ◌∙◌, ◌⊎◌, inl, inr, pos, negsuc, Bytes, List, [], ◌∷◌, ◌++◌,
  length, close_fd, ltb, lt→ltb, close_fd-cons, IsFresh, true, is_some, Option, none, some, text,
  if◌then◌else◌, arith,
}
use sandobox_cpp.Result.{ok, Ensures, returns, Ensures-ok}
use sandobox_cpp.Sandbox.Reading.{Pipe}
use sandobox_cpp.Sandbox.Output.{read_loop-Reads}
use sandobox_cpp.Sandbox.{
  Sandbox, Ledger, Answers, Ran, cleanup, close_end, reap, spawn_of, watch, launch, launch_on, run,
}

-- The numbers that the operating system gives are none of those in use.
pub record Fresh (a : Answers) (l : Ledger) : Type 0 where
  pub ends :
      (rd wr : ℕ) → a.pipe ≡ some (rd, wr) → IsFresh rd (wr ∷ l.open_fds) × IsFresh wr l.open_fds
  pub stack : (block : ℕ) → a.stack ≡ some block → IsFresh block l.blocks

-- The directory of the child's control group.
abbrev pub directory : Sandbox → Bytes
directory s = text "/sys/fs/cgroup" ++ (text "/devops-" ++ s.config.id)

-- Descriptors and blocks are as before, the pipe is closed, and every child started is waited for.
abbrev GivenBack : Answers → Sandbox → Ledger → Sandbox × Ledger → Type 0
GivenBack a s l (s', l') =
    (l'.open_fds ≡ l.open_fds)
    × (l'.blocks ≡ l.blocks)
    × (s'.pipe_read ≡ none)
    × (s'.pipe_write ≡ none)
    × (length l'.spawned + length l.reaped ≡ length l'.reaped + length l.spawned)
    × (l'.removed ≡ (if is_some a.pipe then directory s ∷ l.removed else l.removed))

abbrev pub Released : {k : Pipe} {W : Type 0} → Answers → Sandbox → Ledger → Ran k W → Type 0
Released a s l ran = GivenBack a s l (ran.after, ran.ledger)

closed_both :
    (rd wr : ℕ) (fds : List ℕ)
    → IsFresh rd (wr ∷ fds)
    → IsFresh wr fds
    → close_fd wr (close_fd rd (rd ∷ wr ∷ fds)) ≡ fds
closed_both rd wr fds hr hw =
    ap (close_fd wr) (close_fd-cons rd (wr ∷ fds) hr) ∙ close_fd-cons wr fds hw

closed_turn :
    (rd wr : ℕ) (fds : List ℕ)
    → IsFresh rd (wr ∷ fds)
    → IsFresh wr fds
    → close_fd rd (close_fd wr (rd ∷ wr ∷ fds)) ≡ fds
closed_turn rd wr fds hr hw =
    let apart : rd ≢ wr = λ e. hr.0 (sym e) in
    ap (close_fd rd) {x = close_fd wr (rd ∷ wr ∷ fds)} {y = rd ∷ fds}
      (ground (arith, close_fd-cons wr fds hw))
    ∙ close_fd-cons rd fds hr.1

is_long : (id : Bytes) → ltb 1 (length (text "/devops-" ++ id)) ≡ true
is_long id = lt→ltb 1 (length (text "/devops-" ++ id)) (omega arith)

cleanup-GivenBack :
    (a : Answers) (s s' : Sandbox) (l l' : Ledger)
    → is_some a.pipe ≡ true
    → s'.cgroup_path ≡ text "/devops-" ++ s.config.id
    → close_end s'.pipe_write (close_end s'.pipe_read l'.open_fds) ≡ l.open_fds
    → l'.blocks ≡ l.blocks
    → length l'.spawned + length l.reaped ≡ length l'.reaped + length l.spawned
    → l'.removed ≡ l.removed
    → GivenBack a s l (cleanup s' l')
unfolding cleanup
cleanup-GivenBack a s s' l l' had path fds blocks reaped removed =
    (fds, blocks, refl, refl, reaped, rw (had, path, is_long s.config.id, removed) refl)

module _ (k : Pipe) {W : Type 0} (command : Bytes) (output_fn : Option (Bytes → W → W)) where
  run-Released :
      (a : Answers) (w : W) (s : Sandbox) (l : Ledger) (p : k.State)
      → Fresh a l
      → s.pipe_read ≡ none
      → s.pipe_write ≡ none
      → Ensures (Released a s l) (run k a command output_fn w s l p)
  unfolding run launch_on launch watch reap
  run-Released a w s l p fresh r0 w0 = from a.pipe a.stack a.clone fresh.ends fresh.stack
    where
      from :
          (pipe : Option (ℕ × ℕ)) (stack : Option ℕ) (clone : Bytes ⊎ ℕ)
          → ((rd wr : ℕ)
              → pipe ≡ some (rd, wr)
              → IsFresh rd (wr ∷ l.open_fds) × IsFresh wr l.open_fds)
          → ((block : ℕ) → stack ≡ some block → IsFresh block l.blocks)
          → Ensures (Released (record a { pipe = pipe; stack = stack; clone = clone }) s l) (
              run k
                (record a { pipe = pipe; stack = stack; clone = clone })
                command
                output_fn
                w
                s
                l
                p)
      from none stack clone he hs = returns (refl, refl, r0, w0, omega arith, refl)
      from (some (rd, wr)) none clone he hs =
          let (hr, hw) = he rd wr refl in
          let s1 : Sandbox = record s {
            cgroup_path = text "/devops-" ++ s.config.id;
            pipe_read = some rd;
            pipe_write = some wr;
          } in
          let l1 : Ledger = record l { open_fds = rd ∷ wr ∷ l.open_fds } in
          returns (
            cleanup-GivenBack (record a { pipe = some (rd, wr) }) s s1 l l1 refl refl
              (closed_both rd wr l.open_fds hr hw) refl (omega arith) refl)
      from (some (rd, wr)) (some block) (inl reason) he hs =
          let (hr, hw) = he rd wr refl in
          let s1 : Sandbox = record s {
            cgroup_path = text "/devops-" ++ s.config.id;
            child_pid = negsuc 0;
            pipe_read = some rd;
            pipe_write = some wr;
          } in
          let l1 : Ledger = record l {
            open_fds = rd ∷ wr ∷ l.open_fds;
            blocks = close_fd block (block ∷ l.blocks);
          } in
          returns (
            cleanup-GivenBack (record a { pipe = some (rd, wr) }) s s1 l l1 refl refl
              (closed_both rd wr l.open_fds hr hw) (close_fd-cons block l.blocks (hs block refl))
              (omega arith) refl)
      from (some (rd, wr)) (some block) (inr pid) he hs =
          let (hr, hw) = he rd wr refl in
          let reads =
            read_loop-Reads k output_fn (suc (length (k.pending p))) [] w p (omega arith) in
          let s0 : Sandbox = record s { cgroup_path = text "/devops-" ++ s.config.id } in
          let s1 : Sandbox = record s0 {
            child_pid = pos pid;
            pipe_read = some rd;
            pipe_write = none;
          } in
          let l1 : Ledger = record l {
            open_fds = close_fd wr (rd ∷ wr ∷ l.open_fds);
            blocks = close_fd block (block ∷ l.blocks);
            spawned =
                spawn_of block wr command (record s0 { pipe_read = some rd; pipe_write = some wr })
                ∷ l.spawned;
            reaped = pid ∷ l.reaped;
          } in
          rw reads.returned (
            returns (
              cleanup-GivenBack (record a { pipe = some (rd, wr) }) s s1 l l1 refl refl
                (closed_turn rd wr l.open_fds hr hw) (close_fd-cons block l.blocks (hs block refl))
                (omega arith) refl))

  -- For a sandbox whose pipe is closed: whatever branch run returns from, the process has the descriptors
  -- and the blocks that it had before, the sandbox has no pipe, as many children are waited for as were
  -- started, and the control group's directory is removed once, unless there was no pipe.
  pub run_releases :
      (a : Answers) (w : W) (s : Sandbox) (l : Ledger) (p : k.State) (ran : Ran k W)
      → Fresh a l
      → s.pipe_read ≡ none
      → s.pipe_write ≡ none
      → run k a command output_fn w s l p ≡ ok ran
      → Released a s l ran
  run_releases a w s l p ran fresh r0 w0 e = Ensures-ok (run-Released a w s l p fresh r0 w0) e
