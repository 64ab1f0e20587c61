-- ===== src/Supervisor/Child.antt =====
-- The child's part of spawn_process in sandbox/src/process_supervisor.cpp, from fork to execvp. What
-- chdir, setenv, setrlimit and execvp answer is an argument. Each text goes to them as a C string.
use sandobox_cpp.Base.{
  c_string, map, Bool-cases, inl, inr, ℕ, ◌≡◌, refl, Bytes, List, [], ◌∷◌, Bool, Option, none, some,
  Assoc, lookup, insert, lookup-insert, bytes_eq, bytes_eq→eq, ◌∙◌, subst, true, false,
  if◌then◌else◌,
}
use sandobox_cpp.Supervisor.Types.{ProcessConfig}

-- Whether chdir, setenv of a name, and the two calls of setrlimit take effect, whose results are not read,
-- and whether execvp replaces the process.
pub record ChildAnswers : Type 0 where
  pub changes_dir : Bool
  pub sets : Bytes → Bool
  pub limits_memory : Bool
  pub limits_processes : Bool
  pub replaces : Bool

-- What a process passes on to the program that replaces it.
pub record Process : Type 0 where
  pub directory : Bytes
  pub environment : Assoc Bytes
  pub memory_limit : ℕ
  pub process_limit : ℕ

-- The program with its arguments, or _exit.
pub data Fate : Type 0 where
  runs : Bytes → List Bytes → Process → Fate
  exits : ℕ → Fate

-- working_dir, unless it is empty or chdir fails.
abbrev pub entered : Bool → Bytes → Bytes → Bytes
entered goes [] old = old
entered goes (b ∷ dir) old = if goes then c_string (b ∷ dir) else old

unfoldable pub enter_dir : ChildAnswers → Bytes → Process → Process
unfolding c_string
enter_dir a dir p = record p { directory = entered a.changes_dir dir p.directory }

-- setenv(key.c_str(), value.c_str(), 1), whose result is not read
abbrev pub set_variable : ChildAnswers → Bytes → Bytes → Assoc Bytes → Assoc Bytes
set_variable a key value env =
    if a.sets (c_string key) then insert (c_string key) (c_string value) env else env

unfoldable pub set_environment : ChildAnswers → Assoc Bytes → Assoc Bytes → Assoc Bytes
unfolding c_string
set_environment a [] env = env
set_environment a ((key, value) ∷ rest) env = set_environment a rest (set_variable a key value env)

unfoldable pub limit_memory : ChildAnswers → ℕ → Process → Process
limit_memory a bytes p = record p {
  memory_limit = if a.limits_memory then bytes else p.memory_limit;
}

unfoldable pub limit_processes : ChildAnswers → Process → Process
limit_processes a p = record p { process_limit = if a.limits_processes then 1 else p.process_limit }

unfoldable pub execute : ChildAnswers → ProcessConfig → Process → Fate
unfolding c_string
execute a config p =
    if a.replaces
    then runs (c_string config.command) (map c_string (config.command ∷ config.args)) p
    else exits 127

unfoldable pub run_child : ChildAnswers → ProcessConfig → Process → Fate
unfolding enter_dir set_environment limit_memory limit_processes execute
run_child a config p =
    let moved = enter_dir a config.working_dir p in
    let told = record moved {
      environment = set_environment a config.environment moved.environment;
    } in
    execute a config (limit_processes a (limit_memory a config.memory_limit_bytes told))

-- A key stands in the map once.
abbrev pub IsMap : Assoc Bytes → Type 0
IsMap [] = Unit
IsMap ((key, value) ∷ rest) = (lookup key rest ≡ none) × IsMap rest

-- The variables that setenv takes, as C reads them.
unfoldable pub variables : ChildAnswers → Assoc Bytes → Assoc Bytes
variables a [] = []
variables a ((key, value) ∷ rest) =
    let others = variables a rest in
    if a.sets (c_string key) then (c_string key, c_string value) ∷ others else others

-- The value in the first map, or else in the second.
abbrev pub either : Option Bytes → Option Bytes → Option Bytes
either none other = other
either (some value) other = some value

either-insert :
    (here : Bool) (value : Bytes) (rest env : Option Bytes)
    → (here ≡ true → rest ≡ none)
    → either rest (if here then some value else env)
      ≡ either (if here then some value else rest) env
either-insert true value rest env h = rw (h refl) refl
either-insert false value rest env h = refl

-- The order in which the map is gone through does not matter: what is in it has its value, and all
-- else is as it was.
lookup-set_environment :
    (a : ChildAnswers) (j : Bytes) (config env : Assoc Bytes)
    → IsMap (variables a config)
    → lookup j (set_environment a config env)
      ≡ either (lookup j (variables a config)) (lookup j env)
unfolding set_environment variables lookup
lookup-set_environment a j [] env h = refl
lookup-set_environment a j ((key, value) ∷ rest) env h = elim (Bool-cases (a.sets (c_string key))) [
  | inl good ↦
      let name = c_string key in
      let (once, others) : IsMap ((name, c_string value) ∷ variables a rest) = rw good at h in
      rw good (
        lookup-set_environment a j rest (insert name (c_string value) env) others
        ∙ rw lookup-insert (
            either-insert (bytes_eq name j) (c_string value) (lookup j (variables a rest))
              (lookup j env)
              (λ same.
                subst (λ x. lookup x (variables a rest) ≡ none) (bytes_eq→eq name j same) once)))
  | inr bad ↦
      let others : IsMap (variables a rest) = rw bad at h in
      rw bad (lookup-set_environment a j rest env others)
]

-- Where execvp succeeds, and no two variables that setenv takes have the same name up to a byte 0: the
-- program that is started gets the command in front of its arguments, each up to its first byte 0; each
-- variable of the configuration, up to a byte 0, that setenv takes, and all others as they were; the memory
-- limit and the limit of one process exactly where setrlimit has set them; and the working directory
-- exactly where chdir went there.
pub child_starts :
    (a : ChildAnswers) (config : ProcessConfig) (p : Process)
    → a.replaces ≡ true
    → IsMap (variables a config.environment)
    → (q : Process) × (run_child a config p
        ≡ runs (c_string config.command) (map c_string (config.command ∷ config.args)) q)
      × ((j : Bytes)
          → lookup j q.environment
            ≡ either (lookup j (variables a config.environment)) (lookup j p.environment))
      × (q.memory_limit ≡ (if a.limits_memory then config.memory_limit_bytes else p.memory_limit))
      × (q.process_limit ≡ (if a.limits_processes then 1 else p.process_limit))
      × (q.directory ≡ entered a.changes_dir config.working_dir p.directory)
unfolding run_child
child_starts a config p on vars =
    let q = record p {
      directory = entered a.changes_dir config.working_dir p.directory;
      environment = set_environment a config.environment p.environment;
      memory_limit = if a.limits_memory then config.memory_limit_bytes else p.memory_limit;
      process_limit = if a.limits_processes then 1 else p.process_limit;
    } in
    (
      q,
      rw on refl,
      λ j. lookup-set_environment a j config.environment p.environment vars,
      refl,
      refl,
      refl,
    )
