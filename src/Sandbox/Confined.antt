-- ===== src/Sandbox/Confined.antt =====
-- Which system calls the command may make, and with which limits it runs.
use sandobox_cpp.Base.{
  c_string, ℕ, ◌≡◌, sym, refl, ap, ◌∙◌, Bytes, List, [], ◌∷◌, ◌++◌, Bool, Bool-cases, true, false,
  not, ◌&&◌, ◌||◌, text, Option, none, some, Option-cases, inl, inr, ◌==◌, ==_iff, bytes_eq,
  bytes_eq_iff, tests-eq, if◌then◌else◌, arith,
}
use sandobox_cpp.Sandbox.{SandboxConfig, ChildArgs}
use sandobox_cpp.Sandbox.Child.{
  Answers, Effect, made, wrote, filtered, duplicated, closed, executed, exits, write_file,
  allow_syscall, allowed_names, allow_all, install_allowlist, install_filter, run_command,
  child_entry,
}

-- The program that the effects end in, its arguments, and the filter that it runs under.
pub record Program : Type 0 where
  pub path : Bytes
  pub argv : List Bytes
  pub filter : Option (List ℕ)

unfoldable pub program : Option (List ℕ) → List Effect → Option Program
program filter [] = none
program filter (filtered rules ∷ es) = program (some rules) es
program filter (executed path argv ∷ es) =
    some (record { path = path; argv = argv; filter = filter })
program filter (exits code ∷ es) = none
program filter (made path ∷ es) = program filter es
program filter (wrote path contents ∷ es) = program filter es
program filter (duplicated fd target ∷ es) = program filter es
program filter (closed fd ∷ es) = program filter es

unfoldable pub has : ℕ → List ℕ → Bool
has n [] = false
has n (r ∷ rs) = r == n || has n rs

unfoldable pub listed : Bytes → List Bytes → Bool
listed name [] = false
listed name (m ∷ ms) = bytes_eq m name || listed name ms

-- The program may make the system call n.
abbrev pub permits : Option (List ℕ) → ℕ → Bool
permits none n = true
permits (some rules) n = has n rules

has-append : (n : ℕ) (rs ss : List ℕ) → has n (rs ++ ss) ≡ (has n rs || has n ss)
unfolding has
has-append n [] ss = refl
has-append n (r ∷ rs) ss = rw (has-append n rs ss) (ground arith)

taken_by : (e b t : Bool) → (e ≡ true → t ≡ true) → e ≡ b → (b && t) ≡ b
taken_by true b t h same = let on = h refl in ground arith
taken_by false b t h same = ground arith

lost_by : (e b t : Bool) → (e ≡ true → t ≡ false) → e ≡ b → (b && t) ≡ false
lost_by true b t h same = let off = h refl in ground arith
lost_by false b t h same = ground arith

-- Different names have different numbers.
abbrev pub IsInjective : (Bytes → Option ℕ) → Type 0
IsInjective resolve = (x y : Bytes) (n : ℕ) → resolve x ≡ some n → resolve y ≡ some n → x ≡ y

module _ (a : Answers) (injective : IsInjective a.resolve) (name : Bytes) (n : ℕ)
    (known : a.resolve name ≡ some n) where
  has-allow_syscall :
      (rules : List ℕ) (m : Bytes)
      → has n (allow_syscall a rules m) ≡ (has n rules || bytes_eq m name && a.adds n)
  unfolding has allow_syscall
  has-allow_syscall rules m = elim (Option-cases (a.resolve m)) [
    | inl unknown ↦
        let other : bytes_eq m name ≡ false =
          tests-eq (bytes_eq m name) false (λ e. cc ((bytes_eq_iff m name).0 e, known, unknown))
            (λ e. cc e) in
        rw (unknown, other, allow_syscall) (ground arith)
    | inr (sys, e) ↦
        let same : (sys == n) ≡ bytes_eq m name =
          tests-eq (sys == n) (bytes_eq m name)
            (λ h.
              (bytes_eq_iff m name).1 (injective m name n (e ∙ ap some ((==_iff sys n).0 h)) known))
            (λ h. (==_iff sys n).1 (cc ((bytes_eq_iff m name).0 h, e, known))) in
        elim (Bool-cases (a.adds sys)) [
          | inl taken ↦
              let known_taken : (bytes_eq m name && a.adds n) ≡ bytes_eq m name =
                taken_by (sys == n) _ _ (λ h. (ap a.adds (sym ((==_iff sys n).0 h)) ∙ taken))
                  same in
              rw (e, allow_syscall, taken, has-append n rules (sys ∷ []), same, known_taken)
                (ground arith)
          | inr lost ↦
              let known_lost : (bytes_eq m name && a.adds n) ≡ false =
                lost_by (sys == n) _ _ (λ h. (ap a.adds (sym ((==_iff sys n).0 h)) ∙ lost)) same in
              rw (e, allow_syscall, lost, known_lost) (ground arith)
        ]
  ]

  has-allow_all :
      (rules : List ℕ) (names : List Bytes)
      → has n (allow_all a rules names) ≡ (has n rules || listed name names && a.adds n)
  unfolding allow_all listed
  has-allow_all rules [] = ground arith
  has-allow_all rules (m ∷ ms) =
      has-allow_all (allow_syscall a rules m) ms ∙ rw (has-allow_syscall rules m) (ground arith)

program-write_file :
    (a : Answers) (filter : Option (List ℕ)) (path contents : Bytes) (es : List Effect)
    → program filter (write_file a path contents ++ es) ≡ program filter es
unfolding program write_file
program-write_file a filter path contents es = ground arith

-- The rules that are in force when the command starts.
abbrev pub loaded : Answers → SandboxConfig → Option (List ℕ)
loaded a config =
    if config.enable_seccomp && a.init && a.load then some (install_allowlist a) else none

-- sh -c, with the command up to its first byte 0, under those rules
abbrev pub shell : Answers → ChildArgs → Program
shell a args = record {
  path = text "/bin/sh";
  argv = text "sh" ∷ text "-c" ∷ c_string args.command ∷ [];
  filter = loaded a args.config;
}

program-child_entry :
    (a : Answers) (args : ChildArgs)
    → program none (child_entry a args) ≡ (if a.replaces then some (shell a args) else none)
unfolding child_entry install_filter run_command program
program-child_entry a args = rw (program-write_file) (ground arith)

-- If libseccomp gives different names different numbers, and gives `name` the number n: the child ends in
-- the shell with the command, up to its first byte 0, exactly if it comes to execl and that succeeds,
-- whatever the control group and libseccomp answer; and the command may make the system call n exactly if
-- its name is on the allowlist and libseccomp has taken the rule for n, or if no filter is in force, which
-- is so when it is disabled and also when libseccomp fails to make or to load it.
pub child_entry_confines_iff :
    (a : Answers) (args : ChildArgs) (name : Bytes) (n : ℕ)
    → IsInjective a.resolve
    → a.resolve name ≡ some n
    → (program none (child_entry a args) ≡ (if a.replaces then some (shell a args) else none))
      × (permits (loaded a args.config) n ≡ (
          not (args.config.enable_seccomp && a.init && a.load)
          || listed name allowed_names && a.adds n))
unfolding install_allowlist has
child_entry_confines_iff a args name n injective known = (
  program-child_entry a args,
  elim (Bool-cases (args.config.enable_seccomp && a.init && a.load)) [
    | inl e ↦ rw e (has-allow_all a injective name n known [] allowed_names)
    | inr e ↦ rw e refl
  ],
)
