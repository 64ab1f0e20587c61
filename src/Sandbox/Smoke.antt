-- ===== src/Sandbox/Smoke.antt =====
-- sandbox/docker/scripts/sandbox_smoke.cpp and cross_stub_main.cpp, and the run of sandbox/src/sandbox.cpp
-- for systems other than Linux. What they print is not in the model.
use sandobox_cpp.Base.{
  ℕ, ℤ, pos, negsuc, ◌+◌, ◌≡◌, ap, refl, Bytes, [], ◌∷◌, ◌++◌, Bool, true, false, ◌&&◌, ◌||◌, none,
  text, ◌==◌, if◌then◌else◌, arith,
}
use sandobox_cpp.Result.{Result, ok, ◌>>=◌}
use sandobox_cpp.Sandbox.Reading.{Pipe}
use sandobox_cpp.Sandbox.{
  SandboxConfig, default_config, ExecResult, sandbox, cleanup, Answers, Ledger, Ran, run,
}
use sandobox_cpp.Sandbox.Delivery.{run-Delivers}

-- hay.find(needle) != npos
unfoldable pub begins : Bytes → Bytes → Bool
begins [] hay = true
begins (b ∷ needle) [] = false
begins (b ∷ needle) (c ∷ hay) = (b == c) && begins needle hay

unfoldable pub contains : Bytes → Bytes → Bool
unfolding begins
contains needle [] = begins needle []
contains needle (c ∷ hay) = begins needle (c ∷ hay) || contains needle hay

abbrev pub is_code : ℕ → ℤ → Bool
is_code want (pos n) = n == want
is_code want (negsuc n) = false

abbrev pub is_expected : ℕ → Bytes → ExecResult → Bool
is_expected want expected r = is_code want r.exit_code && contains expected r.out

-- The stub of Sandbox::run, and the program that links it.
abbrev pub unsupported : ExecResult
unsupported = record {
  exit_code = negsuc 0;
  duration_ms = pos 0;
  out = [];
  err = text "sandbox only supported on Linux (use Docker or VM for macOS)";
}

abbrev is_minus_one : ℤ → Bool
is_minus_one (negsuc n) = n == 0
is_minus_one (pos n) = false

unfoldable pub stub_main : ExecResult → ℕ
unfolding contains
stub_main r =
    if is_minus_one r.exit_code
    then if contains (text "sandbox only supported on Linux") r.err then 0 else 2
    else 1

stub_main-unsupported : stub_main unsupported ≡ 0
unfolding stub_main
stub_main-unsupported = refl

module _ (k : Pipe) where
  -- What is outside of one check: the answers to the calls of run, and its pipe.
  pub record Turn : Type 0 where
    pub answers : Answers
    pub pipe : k.State

  abbrev verdict : ℕ → Bytes → Ran k (Unit {0}) → ℕ × Ledger
  verdict want expected ran =
      (if is_expected want expected ran.result then 0 else 1, (cleanup ran.after ran.ledger).1)

  -- check, with ~Sandbox at its end
  unfoldable pub check : SandboxConfig → Bytes → ℕ → Bytes → Turn → Ledger → Result (ℕ × Ledger)
  unfolding cleanup contains
  check cfg cmd want expected turn l = do
    ran ← run k turn.answers cmd none tt (sandbox cfg) l turn.pipe
    ok (verdict want expected ran)

  abbrev base : SandboxConfig
  base = record default_config { id = text "smoke" }

  abbrev no_sec : SandboxConfig
  no_sec = record base { enable_seccomp = false }

  -- The commands have their escapes as printf gets them: a backslash and an n.
  abbrev printf : Bytes
  printf = text "printf 'hello-from-sandbox" ++ 92 ∷ (text "n'")

  -- main: the number of failures, and 1 if there is one
  unfoldable pub smoke_main : Turn → Turn → Turn → Turn → Turn → Ledger → Result ℕ
  smoke_main t₁ t₂ t₃ t₄ t₅ l = do
    (a, l₁) ← check base printf 0 (text "hello-from-sandbox") t₁ l
    (b, l₂) ← check base (text "echo $((1 + 2))") 0 (text "3") t₂ l₁
    (c, l₃) ← check no_sec printf 0 (text "hello-from-sandbox") t₃ l₂
    (d, l₄) ← check base (text "exit 42") 42 [] t₄ l₃
    (e, l₅) ← check base (text "false") 1 [] t₅ l₄
    ok (if (a + b + c + d + e) == 0 then 0 else 1)

  -- The results of the five runs are as expected.
  abbrev all_expected :
      Ran k (Unit {0})
      → Ran k (Unit {0})
      → Ran k (Unit {0})
      → Ran k (Unit {0})
      → Ran k (Unit {0})
      → Bool
  all_expected r₁ r₂ r₃ r₄ r₅ =
      is_expected 0 (text "hello-from-sandbox") r₁.result
      && (is_expected 0 (text "3") r₂.result
          && (is_expected 0 (text "hello-from-sandbox") r₃.result
              && (is_expected 42 [] r₄.result && is_expected 1 [] r₅.result)))

  abbrev failure : Bool → ℕ
  failure expected = if expected then 0 else 1

  count_failures :
      (a b c d e : Bool)
      → failure ((failure a + failure b + failure c + failure d + failure e) == 0)
        ≡ failure (a && (b && (c && (d && e))))
  count_failures a b c d e = ground arith

  -- A check comes to its end, and counts a failure exactly if the exit code or the output of its run is
  -- not the expected one.
  check_returns :
      (cfg : SandboxConfig) (cmd : Bytes) (want : ℕ) (expected : Bytes) (turn : Turn) (l : Ledger)
      → (ran : Ran k (Unit {0})) × (run k turn.answers cmd none tt (sandbox cfg) l turn.pipe
          ≡ ok ran)
        × (check cfg cmd want expected turn l ≡ ok (verdict want expected ran))
  unfolding check
  check_returns cfg cmd want expected turn l =
      let d = run-Delivers k cmd none turn.answers tt (sandbox cfg) l turn.pipe in
      (d.ran, d.returned, rw (d.returned, check) refl)

  -- main comes to its end, whatever the operating system answers, with 0 exactly if the five runs have
  -- the expected exit codes and outputs.
  smoke_main_returns :
      (t₁ t₂ t₃ t₄ t₅ : Turn) (l : Ledger)
      → (r₁ : Ran k (Unit {0})) × (r₂ : Ran k (Unit {0})) × (r₃ : Ran k (Unit {0})) × (r₄ : Ran k
          (Unit {0}))
        × (r₅ : Ran k (Unit {0})) × (smoke_main t₁ t₂ t₃ t₄ t₅ l
            ≡ ok (if all_expected r₁ r₂ r₃ r₄ r₅ then 0 else 1))
  unfolding smoke_main
  smoke_main_returns t₁ t₂ t₃ t₄ t₅ l =
      let hello = text "hello-from-sandbox" in
      let (r₁, _, e₁) = check_returns base printf 0 hello t₁ l in
      let l₁ = (verdict 0 hello r₁).1 in
      let (r₂, _, e₂) = check_returns base (text "echo $((1 + 2))") 0 (text "3") t₂ l₁ in
      let l₂ = (verdict 0 (text "3") r₂).1 in
      let (r₃, _, e₃) = check_returns no_sec printf 0 hello t₃ l₂ in
      let l₃ = (verdict 0 hello r₃).1 in
      let (r₄, _, e₄) = check_returns base (text "exit 42") 42 [] t₄ l₃ in
      let l₄ = (verdict 42 [] r₄).1 in
      let (r₅, _, e₅) = check_returns base (text "false") 1 [] t₅ l₄ in
      (r₁, r₂, r₃, r₄, r₅, rw e₁ (rw e₂ (rw e₃ (rw e₄ (rw e₅ (ap ok (count_failures _ _ _ _ _)))))))
