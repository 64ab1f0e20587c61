-- ===== src/Sandbox/Delivery.antt =====
-- What run returns of the command's output, on every branch.
use sandobox_cpp.Base.{
  ℕ, suc, ◌≡◌, refl, ◌⊎◌, inl, inr, pos, Bytes, List, [], ◌∷◌, ◌++◌, length, close_fd, false,
  Option, none, some, text, arith,
}
use sandobox_cpp.Result.{Result, ok}
use sandobox_cpp.Sandbox.Reading.{Pipe}
use sandobox_cpp.Sandbox.Output.{deliver, join, AreChunks, IsDrained, read_loop-Reads}
use sandobox_cpp.Sandbox.{
  Sandbox, Ledger, Answers, Ran, failed, finish, reap, spawn_of, watch, launch, launch_on, run,
  launched,
}

-- The chunks that run reads are its output and what output_fn is called with, in order, and nothing is
-- read that the result does not have.
pub record Delivers (k : Pipe) {W : Type 0} (a : Answers) (output_fn : Option (Bytes → W → W))
    (w : W) (p : k.State) (r : Result (Ran k W)) : Type 0 where
  pub ran : Ran k W
  pub chunks : List Bytes
  pub returned : r ≡ ok ran
  pub are_chunks : AreChunks chunks
  pub output : ran.result.out ≡ join chunks
  pub delivered : ran.caller ≡ deliver output_fn chunks w
  pub in_order : k.pending p ≡ ran.result.out ++ k.pending ran.stream
  pub drained : (launched a ≡ false) ⊎ IsDrained k ran.stream

module _ (k : Pipe) {W : Type 0} (command : Bytes) (output_fn : Option (Bytes → W → W)) where
  watch-Delivers :
      (a : Answers) (block wr pid : ℕ) (w : W) (s : Sandbox) (l : Ledger) (p : k.State)
      → Delivers k a output_fn w p (watch k a command output_fn block wr pid w s l p)
  unfolding watch
  watch-Delivers a block wr pid w s l p =
      let reads = read_loop-Reads k output_fn (suc (length (k.pending p))) [] w p (omega arith) in
      record {
        ran =
            reap k a command output_fn block pid
              (record s { pipe_write = none; child_pid = pos pid })
              (record l { open_fds = close_fd wr l.open_fds })
              (join reads.chunks, deliver output_fn reads.chunks w, reads.last);
        chunks = reads.chunks;
        returned = rw reads.returned refl;
        are_chunks = reads.are_chunks;
        output = refl;
        delivered = refl;
        in_order = reads.in_order;
        drained = inr reads.drained;
      }

  -- A run that stops before the command is started.
  unstarted :
      (a : Answers) (w : W) (p : k.State) (reason : Bytes) (s : Sandbox) (l : Ledger)
      → launched a ≡ false
      → Delivers k a output_fn w p (ok (finish k a command output_fn (failed reason) w (s, l) p))
  unstarted a w p reason s l e = record {
    ran = finish k a command output_fn (failed reason) w (s, l) p;
    chunks = [];
    returned = refl;
    are_chunks = tt;
    output = refl;
    delivered = refl;
    in_order = refl;
    drained = inl e;
  }

  -- Where the writers of the pipe come to an end, or read fails, whatever else the operating system answers:
  -- run returns, its output is the chunks that output_fn was called with, in order and each between 1 and
  -- 4095 bytes, and is what the pipe's writers have written first; and if the command is started, then all
  -- that they write is read or the last call of read failed.
  pub run-Delivers :
      (a : Answers) (w : W) (s : Sandbox) (l : Ledger) (p : k.State)
      → Delivers k a output_fn w p (run k a command output_fn w s l p)
  unfolding run launch_on launch
  run-Delivers a w s l p = from a.pipe a.stack a.clone
    where
      from :
          (pipe : Option (ℕ × ℕ)) (stack : Option ℕ) (clone : Bytes ⊎ ℕ)
          → Delivers k
              (record a { pipe = pipe; stack = stack; clone = clone })
              output_fn
              w
              p
              (run k
                (record a { pipe = pipe; stack = stack; clone = clone })
                command
                output_fn
                w
                s
                l
                p)
      from none stack clone = unstarted _ w p (text "pipe() failed") _ _ refl
      from (some (rd, wr)) none clone =
          unstarted _ w p (text "failed to allocate child stack") _ _ refl
      from (some (rd, wr)) (some block) (inl reason) =
          unstarted _ w p (text "clone() failed: " ++ reason) _ _ refl
      from (some (rd, wr)) (some block) (inr pid) =
          watch-Delivers _ block wr pid w
            (record s {
              cgroup_path = text "/devops-" ++ s.config.id;
              pipe_read = some rd;
              pipe_write = some wr;
            })
            (record l {
              open_fds = rd ∷ wr ∷ l.open_fds;
              blocks = block ∷ l.blocks;
              spawned =
                  spawn_of block wr command
                    (record s { cgroup_path = text "/devops-" ++ s.config.id })
                  ∷ l.spawned;
            })
            p
