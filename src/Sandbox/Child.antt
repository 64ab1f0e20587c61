-- ===== src/Sandbox/Child.antt =====
-- child_entry, install_allowlist and allow_syscall of sandbox/src/sandbox.cpp: what the child does
-- between clone and execl. libseccomp, fopen and execl are arguments.
use sandobox_cpp.Base.{
  c_string, ℕ, Bytes, List, [], ◌∷◌, ◌++◌, map, Bool, text, decimal, Option, none, some,
  if◌then◌else◌,
}
use sandobox_cpp.Sandbox.{SandboxConfig, ChildArgs}

-- What the calls answer: the number that seccomp_syscall_resolve_name gives a name, none for
-- __NR_SCMP_ERROR; whether seccomp_rule_add takes the rule for a number, seccomp_init gives a context,
-- seccomp_load succeeds, fopen opens a path, and the process comes to execl and is replaced by it.
pub record Answers : Type 0 where
  pub resolve : Bytes → Option ℕ
  pub adds : ℕ → Bool
  pub init : Bool
  pub load : Bool
  pub opens : Bytes → Bool
  pub replaces : Bool
  pub pid : ℕ

-- What the child's calls do to the process, in order. `filtered` is a loaded filter that kills the
-- process at any system call but the listed ones.
pub data Effect : Type 0 where
  made : Bytes → Effect
  wrote : Bytes → Bytes → Effect
  filtered : List ℕ → Effect
  duplicated : ℕ → ℕ → Effect
  closed : ℕ → Effect
  executed : Bytes → List Bytes → Effect
  exits : ℕ → Effect

-- write_file, whose result no caller reads
unfoldable pub write_file : Answers → Bytes → Bytes → List Effect
write_file a path contents = if a.opens path then wrote path contents ∷ [] else []

-- The result of seccomp_rule_add is not read.
unfoldable pub allow_syscall : Answers → List ℕ → Bytes → List ℕ
allow_syscall a rules name = elim (a.resolve name) [
  | none ↦ rules
  | some sys ↦ if a.adds sys then rules ++ sys ∷ [] else rules
]

abbrev pub allowed_names : List Bytes
allowed_names = map text (
    "read" ∷ "write" ∷ "close" ∷ "openat" ∷ "lseek" ∷ "poll" ∷ "ppoll" ∷ "select" ∷ "pselect6"
    ∷ "pipe" ∷ "pipe2" ∷ "mmap" ∷ "munmap" ∷ "mprotect" ∷ "mremap" ∷ "brk" ∷ "execve" ∷ "exit"
    ∷ "exit_group" ∷ "getpid" ∷ "getppid" ∷ "getuid" ∷ "geteuid" ∷ "getgid" ∷ "getegid"
    ∷ "getrandom" ∷ "futex" ∷ "rseq" ∷ "set_robust_list" ∷ "set_tid_address" ∷ "fstat"
    ∷ "newfstatat" ∷ "statfs" ∷ "fstatfs" ∷ "faccessat" ∷ "faccessat2" ∷ "readlinkat" ∷ "getcwd"
    ∷ "chdir" ∷ "uname" ∷ "getdents64" ∷ "ioctl" ∷ "arch_prctl" ∷ "prctl" ∷ "rt_sigaction"
    ∷ "rt_sigprocmask" ∷ "sigaltstack" ∷ "clock_gettime" ∷ "nanosleep" ∷ "clone" ∷ "wait4"
    ∷ "waitid" ∷ "fcntl" ∷ "dup2" ∷ "dup3" ∷ "prlimit64" ∷ "getrlimit" ∷ "setrlimit" ∷ "getrusage"
    ∷ [])

-- the loop of install_allowlist
unfoldable pub allow_all : Answers → List ℕ → List Bytes → List ℕ
unfolding allow_syscall
allow_all a rules [] = rules
allow_all a rules (name ∷ names) = allow_all a (allow_syscall a rules name) names

unfoldable pub install_allowlist : Answers → List ℕ
unfolding allow_all
install_allowlist a = allow_all a [] allowed_names

unfoldable pub install_filter : Answers → SandboxConfig → List Effect
unfolding install_allowlist
install_filter a config =
    if config.enable_seccomp
    then if a.init then if a.load then filtered (install_allowlist a) ∷ [] else [] else []
    else []

-- execl with command->c_str() and, if it returns, _exit
unfoldable pub run_command : Answers → Bytes → List Effect
unfolding c_string
run_command a command =
    if a.replaces
    then executed (text "/bin/sh") (text "sh" ∷ text "-c" ∷ c_string command ∷ []) ∷ []
    else exits 127 ∷ []

unfoldable pub child_entry : Answers → ChildArgs → List Effect
unfolding write_file install_filter run_command
child_entry a args =
    let config = args.config in
    let base = text "/sys/fs/cgroup" ++ args.cgroup_path in
    (made base ∷ [])
    ++ (write_file a (base ++ text "/memory.max") (decimal config.memory_limit_bytes)
        ++ (write_file a (base ++ text "/cpu.max")
              (decimal config.cpu_quota_us ++ (text " " ++ decimal config.cpu_period_us))
            ++ (write_file a (base ++ text "/pids.max") (decimal config.pids_limit)
                ++ (write_file a (base ++ text "/cgroup.procs") (decimal a.pid)
                    ++ (install_filter a config
                        ++ ((duplicated args.pipe_fd 1
                              ∷ duplicated args.pipe_fd 2
                              ∷ closed args.pipe_fd
                              ∷ [])
                            ++ run_command a args.command))))))
