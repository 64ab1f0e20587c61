-- ===== src/Daemon/Lifetime.antt =====
-- The health monitor's thread calls a check that reads the resource manager: which of them ends first.
use sandobox_cpp.Base.{
  ℕ, ◌≡◌, refl, subst, ◌==◌, Bytes, List, [], ◌∷◌, Bool, true, false, not, ◌&&◌, ◌||◌, Option, none,
  some, if◌then◌else◌,
}
use sandobox_cpp.Result.{Result, ok, err, out_of_fuel}
use sandobox_cpp.Options.{Options, GetoptLong, parse_args}
use sandobox_cpp.Sandbox.{Ledger}
use sandobox_cpp.Sandbox.Reading.{Pipe}
use sandobox_cpp.Jobs.Calls.{Server, ◌>>=◌}
use sandobox_cpp.Jobs.{Doubles, World, Machine}
use sandobox_cpp.Daemon.{
  health_monitor, resource_manager, Step, starts, stops, destroys, Outcome, early, is_refused,
  serve, enter, main,
}

-- No resource manager is destroyed while the thread runs; the thread ends by stop or by the destructor.
unfoldable pub outlives : Bool → List Step → Bool
outlives running [] = true
outlives running (starts health_monitor ∷ steps) = outlives true steps
outlives running (stops health_monitor ∷ steps) = outlives false steps
outlives running (destroys health_monitor ∷ steps) = outlives false steps
outlives running (destroys resource_manager ∷ steps) = not running && outlives running steps
outlives running (step ∷ steps) = outlives running steps

abbrev pub is_empty : List Step → Bool
is_empty [] = true
is_empty (step ∷ steps) = false

-- P holds of the value, if there is one.
data If {A : Type 0} (P : A → Type 0) : Option A → Type 0 where
  nothing : If P none
  just : {a : A} → P a → If P (some a)

If-bind :
    {A B : Type 0} {P : B → Type 0} (r : Option A) {f : A → Option B}
    → ((a : A) → If P (f a))
    → If P (r >>= f)
If-bind none h = nothing
If-bind (some a) h = h a

If-cond :
    {A : Type 0} {P : A → Type 0} (b : Bool) {x y : Option A}
    → If P x
    → If P y
    → If P (if b then x else y)
If-cond true hx hy = hx
If-cond false hx hy = hy

If-some : {A : Type 0} {P : A → Type 0} {r : Option A} {a : A} → If P r → r ≡ some a → P a
If-some nothing e = cc
If-some {P = P} (just h) e = subst P (cc) h

module _ (srv : Server) (d : Doubles) (clock : ℕ → ℕ) (k : Pipe) (pid : ℕ) (ledger : Ledger) where
  abbrev Judged : Outcome (World srv.State d.V) → Type 0
  Judged o = outlives false o.steps ≡ (o.code == 0 || is_empty o.steps)

  serve-Judged :
      (o : Options) (ms : List (Machine k)) (s : srv.State)
      → If Judged (serve srv d clock k pid ledger o ms s)
  unfolding serve outlives
  serve-Judged o ms s = If-bind _ (λ w. just refl)

  enter-Judged :
      (o : Options) (ms : List (Machine k)) (conn : Result (Unit {0}) × srv.State)
      → If Judged (enter srv d clock k pid ledger o ms conn)
  unfolding enter outlives
  enter-Judged o ms (ok u, s) =
      If-bind _ (λ (reg, s'). If-cond (is_refused reg) (just refl) (serve-Judged o ms s'))
  enter-Judged o ms (err e, s) = just refl
  enter-Judged o ms (out_of_fuel, s) = just refl

  main-Judged :
      (getopt_long : GetoptLong) (argv : List Bytes)
      (connect : Bytes → ℕ → Result (Unit {0}) × srv.State) (ms : List (Machine k))
      → If Judged (main srv d clock k pid ledger getopt_long argv connect ms)
  unfolding main outlives
  main-Judged getopt_long argv connect ms =
      of (parse_args getopt_long argv) (λ o. enter-Judged o ms (connect o.host o.port))
    where
      of :
          (parsed : Result Options)
          → ((o : Options)
              → If Judged (enter srv d clock k pid ledger o ms (connect o.host o.port)))
          → If Judged (elim parsed [
            | ok o ↦
                if o.help
                then some (early 0 [])
                else enter srv d clock k pid ledger o ms (connect o.host o.port)
            | _ ↦ some (early 1 [])
          ])
      of (ok o) entered = If-cond o.help (just refl) (entered o)
      of (err e) entered = just refl
      of out_of_fuel entered = just refl

  -- main keeps the resource manager until the health monitor's thread has ended exactly if it returns 0,
  -- or returns before any part is made: where the connection or the registration fails, the resource
  -- manager is destroyed while the thread, whose check reads it, still runs.
  pub main-outlives_iff :
      (getopt_long : GetoptLong) (argv : List Bytes)
      (connect : Bytes → ℕ → Result (Unit {0}) × srv.State) (ms : List (Machine k))
      (o : Outcome (World srv.State d.V))
      → main srv d clock k pid ledger getopt_long argv connect ms ≡ some o
      → outlives false o.steps ≡ (o.code == 0 || is_empty o.steps)
  main-outlives_iff getopt_long argv connect ms o e =
      If-some (main-Judged getopt_long argv connect ms) e
