-- ===== src/Seccomp.antt =====
-- sandbox/src/seccomp.cpp and sandbox/include/devops/seccomp.hpp, on Linux. libseccomp is an argument;
-- the program does not call this filter, and installs its own in Sandbox/Child.
mod Tests
use sandobox_cpp.Base.{
  ℕ, Bytes, List, [], ◌∷◌, map, Bool, true, false, text, Option, none, some, if◌then◌else◌,
}

-- Whether seccomp_init gives a context and seccomp_load succeeds, and the numbers that SCMP_SYS stands for.
pub record Answers : Type 0 where
  pub init : Bool
  pub load : Bool
  pub number : Bytes → ℕ

abbrev pub essential_names : List Bytes
essential_names = map text (
    "read" ∷ "write" ∷ "exit" ∷ "exit_group" ∷ "brk" ∷ "mmap" ∷ "munmap" ∷ "close" ∷ "fstat"
    ∷ "clock_gettime" ∷ "rt_sigaction" ∷ "rt_sigprocmask" ∷ "clone" ∷ "execve" ∷ "wait4" ∷ "dup2"
    ∷ "fcntl" ∷ [])

-- what is returned, and the rules of the filter that is in force then
unfoldable pub install_default_filter : Answers → Bool × Option (List ℕ)
install_default_filter a =
    if a.init
    then if a.load then (true, some (map a.number essential_names)) else (false, none)
    else (false, none)
