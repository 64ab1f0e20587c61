-- ===== src/Sandbox.antt =====
-- sandbox/src/sandbox.cpp and sandbox/include/devops/sandbox.hpp, on Linux: one command in a child
-- process of its own. What the operating system answers is an argument, and what the process holds is a
-- ledger: its descriptors, its blocks, the children it has started and reaped.
pub mod Reading
pub mod Child
pub mod Releases
pub mod Output
pub mod Alike
pub mod Verdict
pub mod Smoke
pub mod Confined
pub mod Delivery
mod Tests
use sandobox_cpp.Base.{
  is_some, ◌&&◌, ℕ, suc, ◌+◌, ◌-◌, ◌*◌, ◌/◌, ◌⊎◌, inl, inr, ltb, ℤ, pos, negsuc, Bytes, List, [],
  ◌∷◌, ◌++◌, length, close_fd, Bool, true, false, text, Option, none, some, if◌then◌else◌,
}
use sandobox_cpp.Result.{Result, ok, err, out_of_fuel, ◌>>=◌}
use sandobox_cpp.Sandbox.Reading.{Pipe, read_loop}

pub record SandboxConfig : Type 0 where
  pub id : Bytes
  pub rootfs : Bytes
  pub memory_limit_bytes : ℕ
  pub cpu_quota_us : ℕ
  pub cpu_period_us : ℕ
  pub pids_limit : ℕ
  pub enable_network : Bool
  pub enable_seccomp : Bool

-- the members' initial values
abbrev pub default_config : SandboxConfig
default_config = record {
  id = [];
  rootfs = text "/";
  memory_limit_bytes = 256 * 1024 * 1024;
  cpu_quota_us = 100000;
  cpu_period_us = 100000;
  pids_limit = 64;
  enable_network = false;
  enable_seccomp = true;
}

pub record ExecResult : Type 0 where
  pub exit_code : ℤ
  pub duration_ms : ℤ
  pub out : Bytes
  pub err : Bytes

-- `pipe_read` and `pipe_write` are pipe_fd_[0] and pipe_fd_[1], none for -1.
pub record Sandbox : Type 0 where
  pub config : SandboxConfig
  pub cgroup_path : Bytes
  pub child_pid : ℤ
  pub pipe_read : Option ℕ
  pub pipe_write : Option ℕ

-- Sandbox(config)
abbrev pub sandbox : SandboxConfig → Sandbox
sandbox config = record {
  config = config;
  cgroup_path = [];
  child_pid = negsuc 0;
  pipe_read = none;
  pipe_write = none;
}

pub record ChildArgs : Type 0 where
  pub config : SandboxConfig
  pub command : Bytes
  pub cgroup_path : Bytes
  pub pipe_fd : ℕ

pub data CloneFlag : Type 0 where
  new_pid sigchld new_net : CloneFlag

-- A call of clone(child_entry, stack_top, flags, &child_args).
pub record Spawn : Type 0 where
  pub stack_top : ℕ
  pub flags : List CloneFlag
  pub args : ChildArgs

-- What the process holds and has done; `reaped` are the children that waitpid was called for.
pub record Ledger : Type 0 where
  pub open_fds : List ℕ
  pub blocks : List ℕ
  pub removed : List Bytes
  pub spawned : List Spawn
  pub reaped : List ℕ

-- What waitpid leaves in status, by WIFEXITED, WEXITSTATUS, WIFSIGNALED and WTERMSIG; `unwritten` where it
-- fails, which run does not look at: the status is the 0 of its declaration then, that of an exit with 0.
pub data WaitStatus : Type 0 where
  exited signaled : ℕ → WaitStatus
  neither unwritten : WaitStatus

-- What the calls answer: none for pipe's -1 and for malloc's nullptr, err with strerror(errno) for a
-- failed clone; the clock counts nanoseconds and never goes back.
pub record Answers : Type 0 where
  pub pipe : Option (ℕ × ℕ)
  pub stack : Option ℕ
  pub clone : Bytes ⊎ ℕ
  pub status : WaitStatus
  pub started : ℕ
  pub ended : ℕ

-- kStackSize
abbrev pub stack_size : ℕ
stack_size = 8 * 1024

-- if (fd >= 0) close(fd);
abbrev pub close_end : Option ℕ → List ℕ → List ℕ
close_end none fds = fds
close_end (some d) fds = close_fd d fds

unfoldable pub cleanup : Sandbox → Ledger → Sandbox × Ledger
cleanup s l = (
  record s { pipe_read = none; pipe_write = none },
  record l {
    removed =
        if ltb 1 (length s.cgroup_path)
        then (text "/sys/fs/cgroup" ++ s.cgroup_path) ∷ l.removed
        else l.removed;
    open_fds = close_end s.pipe_write (close_end s.pipe_read l.open_fds);
  },
)

abbrev pub flags_of : SandboxConfig → List CloneFlag
flags_of config =
    if config.enable_network then new_pid ∷ sigchld ∷ [] else new_pid ∷ sigchld ∷ new_net ∷ []

-- the call of clone: child_args, the end of the stack, and the flags
abbrev pub spawn_of : ℕ → ℕ → Bytes → Sandbox → Spawn
spawn_of block wr command s = record {
  stack_top = block + stack_size;
  flags = flags_of s.config;
  args = record { config = s.config; command = command; cgroup_path = s.cgroup_path; pipe_fd = wr };
}

abbrev pub failed : Bytes → ExecResult
failed reason = record { exit_code = negsuc 0; duration_ms = pos 0; out = []; err = reason }

unfoldable pub exit_code_of : WaitStatus → ℤ
exit_code_of (exited code) = pos code
exit_code_of (signaled signal) = pos (128 + signal)
exit_code_of neither = negsuc 0
exit_code_of unwritten = pos 0

abbrev pub free : ℕ → Ledger → Ledger
free block l = record l { blocks = close_fd block l.blocks }

-- What run leaves behind: its result, the caller's state that output_fn works on, the sandbox, what the
-- process holds, and the pipe.
pub record Ran (k : Pipe) (W : Type 0) : Type 0 where
  pub result : ExecResult
  pub caller : W
  pub after : Sandbox
  pub ledger : Ledger
  pub stream : k.State

module _ (k : Pipe) {W : Type 0} (a : Answers) (command : Bytes)
    (output_fn : Option (Bytes → W → W)) where
  abbrev pub finish : ExecResult → W → Sandbox × Ledger → k.State → Ran k W
  finish result w (s, l) p = record {
    result = result;
    caller = w;
    after = s;
    ledger = l;
    stream = p;
  }

  -- run, once the output is read
  unfoldable pub reap : ℕ → ℕ → Sandbox → Ledger → Bytes × W × k.State → Ran k W
  unfolding cleanup exit_code_of
  reap block pid s l (out, w, p) =
      let result : ExecResult = record {
        exit_code = exit_code_of a.status;
        duration_ms = pos ((a.ended - a.started) / 1000000);
        out = out;
        err = [];
      } in
      finish result w (cleanup s (free block (record l { reaped = pid ∷ l.reaped }))) p

  -- run, from the close of the parent's writing end on
  unfoldable pub watch : ℕ → ℕ → ℕ → W → Sandbox → Ledger → k.State → Result (Ran k W)
  unfolding reap read_loop
  watch block wr pid w s l p = do
    let s' = record s { pipe_write = none; child_pid = pos pid }
    let l' = record l { open_fds = close_fd wr l.open_fds }
    read ← read_loop k output_fn (suc (length (k.pending p))) [] w p
    ok (reap block pid s' l' read)

  -- run, from the call of clone on
  unfoldable pub launch : ℕ → ℕ → W → Sandbox → Ledger → k.State → Result (Ran k W)
  unfolding watch cleanup
  launch block wr w s l p = elim a.clone [
    | inl reason ↦ ok (
        finish (failed (text "clone() failed: " ++ reason)) w
          (cleanup (record s { child_pid = negsuc 0 }) (free block l)) p)
    | inr pid ↦
        watch block wr pid w s (record l { spawned = spawn_of block wr command s ∷ l.spawned }) p
  ]

  -- run, once it has its pipe
  unfoldable pub launch_on : ℕ → ℕ → W → Sandbox → Ledger → k.State → Result (Ran k W)
  unfolding launch cleanup
  launch_on rd wr w s l p =
      let s' = record s { pipe_read = some rd; pipe_write = some wr } in
      let l' = record l { open_fds = rd ∷ wr ∷ l.open_fds } in
      elim a.stack [
        | none ↦ ok (finish (failed (text "failed to allocate child stack")) w (cleanup s' l') p)
        | some block ↦ launch block wr w s' (record l' { blocks = block ∷ l'.blocks }) p
      ]

  unfoldable pub run : W → Sandbox → Ledger → k.State → Result (Ran k W)
  unfolding launch_on
  run w s l p =
      let s' = record s { cgroup_path = text "/devops-" ++ s.config.id } in
      elim a.pipe [
        | none ↦ ok (finish (failed (text "pipe() failed")) w (s', l) p)
        | some (rd, wr) ↦ launch_on rd wr w s' l p
      ]

-- The command is started.
abbrev pub launched : Answers → Bool
launched a =
    is_some a.pipe && is_some a.stack && (elim a.clone [ inl reason ↦ false | inr pid ↦ true ])
