-- ===== src/Sandbox/Tests.antt =====
-- Concrete runs: a pipe that moves one byte a call, and a command that writes `hi`.
use sandobox_cpp.Base.{
  sym, ◌∙◌, ◌==◌, Bool-cases, bytes_eq→eq, ℕ, zero, suc, ◌≤◌, ◌≡◌, ◌&&◌, refl, inl, inr, ◌↔◌, ℤ,
  pos, Bytes, List, [], ◌∷◌, ◌++◌, length, true, false, ◌||◌, Option, none, some, text, bytes_eq,
  if◌then◌else◌, IsFresh, arith,
}
use sandobox_cpp.Result.{Result, ok}
use sandobox_cpp.Sandbox.Reading.{Pipe}
use sandobox_cpp.Sandbox.Delivery.{Delivers, run-Delivers}
use sandobox_cpp.Sandbox.Verdict.{ReadsSuccess, reported, run_succeeds_iff}
use sandobox_cpp.Sandbox.Releases.{Released, run_releases}
use sandobox_cpp.Sandbox.Child.{
  Effect, wrote, made, exits, duplicated, closed, child_entry, allowed_names,
}
use sandobox_cpp.Sandbox.Child
use sandobox_cpp.Sandbox.Confined.{
  program, permits, loaded, shell, listed, IsInjective, child_entry_confines_iff,
}
use sandobox_cpp.Sandbox.{
  SandboxConfig, default_config, ExecResult, Sandbox, sandbox, ChildArgs, Ledger, Answers, Ran,
  WaitStatus, exited, signaled, new_pid, sigchld, new_net, exit_code_of, cleanup, spawn_of, run,
  launched,
}

abbrev read_one : Bytes → ℕ → Option Bytes × Bytes
read_one [] n = (some [], [])
read_one (b ∷ p) zero = (some [], b ∷ p)
read_one (b ∷ p) (suc n) = (some (b ∷ []), p)

read_one_takes :
    (s : Bytes) (n : ℕ) (bs : Bytes)
    → (read_one s n).0 ≡ some bs
    → (length bs ≤ n) × (s ≡ bs ++ (read_one s n).1)
read_one_takes [] n bs e = ground arith
read_one_takes (b ∷ p) zero bs e = ground arith
read_one_takes (b ∷ p) (suc n) bs e = ground arith

read_one_ends : (s : Bytes) (n : ℕ) → (read_one s (suc n)).0 ≡ some [] → s ≡ []
read_one_ends [] n e = refl
read_one_ends (b ∷ p) n e = cc

read_one_fails : (s : Bytes) (n : ℕ) → (read_one s n).0 ≡ none → (read_one s n).1 ≡ s
read_one_fails [] n e = refl
read_one_fails (b ∷ p) zero e = refl
read_one_fails (b ∷ p) (suc n) e = cc

abbrev one_by_one : Pipe
one_by_one = record {
  State = Bytes;
  read = read_one;
  pending = λ s. s;
  read_takes = read_one_takes;
  read_ends = read_one_ends;
  read_fails = read_one_fails;
}

abbrev recorder : Option (Bytes → List Bytes → List Bytes)
recorder = some (λ chunk chunks. chunks ++ chunk ∷ [])

abbrev box : Sandbox
box = sandbox (record default_config { id = text "7" })

abbrev held : Ledger
held = record { open_fds = 4 ∷ []; blocks = 100 ∷ []; removed = []; spawned = []; reaped = [] }

abbrev answers : Answers
answers = record {
  pipe = some (5, 6);
  stack = some 4096;
  clone = inr 77;
  status = exited 0;
  started = 1000000;
  ended = 8500000;
}

abbrev echo : Bytes
echo = text "echo -n hi"

-- What run comes to under these answers.
abbrev ran : Ran one_by_one (List Bytes)
ran = record {
  result = record { exit_code = pos 0; duration_ms = pos 7; out = text "hi"; err = [] };
  caller = text "h" ∷ text "i" ∷ [];
  after = record box { cgroup_path = text "/devops-7"; child_pid = pos 77 };
  ledger = record held {
    removed = text "/sys/fs/cgroup/devops-7" ∷ [];
    reaped = 77 ∷ [];
    spawned = spawn_of 4096 6 echo (record box { cgroup_path = text "/devops-7" }) ∷ [];
  };
  stream = [];
}

run-echo : run one_by_one answers echo recorder [] box held (text "hi") ≡ ok ran
unfolding run
run-echo = refl

abbrev code : Result (Ran one_by_one (List Bytes)) → ℤ
code (ok ran) = ran.result.exit_code
code _ = pos 0

run_killed :
    code (run one_by_one (record answers { status = signaled 9 }) echo recorder [] box held [])
    ≡ pos 137
unfolding run
run_killed = refl

run-Delivers_example :
    Delivers one_by_one answers recorder []
      (text "hi")
      (run one_by_one answers echo recorder [] box held (text "hi"))
run-Delivers_example = run-Delivers one_by_one echo recorder answers [] box held (text "hi")

run_succeeds_iff_example :
    ((pos 0 ≡ pos 0) ↔ ((launched answers ≡ true) × ReadsSuccess (exited 0)))
    × ((ran.result.err ≡ []) ↔ (launched answers ≡ true))
    × (pos 0 ≡ reported answers)
run_succeeds_iff_example =
    run_succeeds_iff one_by_one echo recorder answers [] box held (text "hi") ran run-echo

ends_unused :
    (rd wr : ℕ) → answers.pipe ≡ some (rd, wr) → IsFresh rd (wr ∷ 4 ∷ []) × IsFresh wr (4 ∷ [])
ends_unused rd wr e = ground arith

stack_unused : (block : ℕ) → answers.stack ≡ some block → IsFresh block (100 ∷ [])
stack_unused block e = ground arith

run_releases_example : Released answers box held ran
run_releases_example =
    run_releases one_by_one echo recorder answers [] box held (text "hi") ran
      (record { ends = ends_unused; stack = stack_unused }) refl refl run-echo

-- libseccomp on a machine that knows `read` and `socket`
abbrev numbers : Bytes → Option ℕ
numbers name =
    if bytes_eq name (text "read")
    then some 0
    else if bytes_eq name (text "socket")
    then some 41
    else none

name_of :
    (x : Bytes) (n : ℕ) → numbers x ≡ some n → x ≡ (if n == 0 then text "read" else text "socket")
name_of x n e = elim (Bool-cases (bytes_eq x (text "read"))) [
  | inl read ↦ let zero : 0 ≡ n = cc (e, read) in rw (← zero) (bytes_eq→eq x (text "read") read)
  | inr other ↦ elim (Bool-cases (bytes_eq x (text "socket"))) [
    | inl socket ↦
        let number : 41 ≡ n = cc (e, other, socket) in
        rw (← number) (bytes_eq→eq x (text "socket") socket)
    | inr unknown ↦ absurd (cc (e, other, unknown))
  ]
]

numbers-IsInjective : IsInjective numbers
numbers-IsInjective x y n e f = name_of x n e ∙ sym (name_of y n f)

abbrev child : sandobox_cpp.Sandbox.Child.Answers
child = record {
  resolve = numbers;
  adds = λ n. true;
  init = true;
  load = true;
  opens = λ path. true;
  replaces = true;
  pid = 1;
}

abbrev child_args : ChildArgs
child_args = record {
  config = box.config;
  command = echo;
  cgroup_path = text "/devops-7";
  pipe_fd = 6;
}

child_entry_confines_iff_example :
    (program none (child_entry child child_args) ≡ some (shell child child_args))
    × (permits (loaded child box.config) 41
        ≡ (false || listed (text "socket") allowed_names && true))
unfolding bytes_eq
child_entry_confines_iff_example =
    child_entry_confines_iff child child_args (text "socket") 41 numbers-IsInjective refl

socket_is_not_listed : listed (text "socket") allowed_names ≡ false
unfolding listed bytes_eq
socket_is_not_listed = refl
