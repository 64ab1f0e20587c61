-- ===== src/Supervisor/Rules.antt =====
-- Postconditions of calls on the supervisor, with a rule for each way to put calls together.
use sandobox_cpp.Base.{◌≡◌, refl, Bool, true, false, if◌then◌else◌, Bool-cases, inl, inr}
use sandobox_cpp.Supervisor.Types.{Supervisor}
use sandobox_cpp.Supervisor.Act.{
  Outcome, returns, blocked, terminated, Act, then_do, with_lock, unlocked,
}

-- If the call returns, P holds of its result and of the supervisor that it leaves.
abbrev pub Holds {ℓ} : {A : Type ℓ} → (A → Supervisor → Type 0) → Outcome A → Type 0
Holds P (returns a s) = P a s
Holds P blocked = Unit
Holds P terminated = Unit

pub Holds-bind {ℓ} :
    {A B : Type ℓ} (P : A → Supervisor → Type 0) (Q : B → Supervisor → Type 0) (o : Outcome A)
    (f : A → Act B)
    → Holds P o
    → ((a : A) (s : Supervisor) → P a s → Holds Q (f a s))
    → Holds Q (then_do o f)
Holds-bind P Q (returns a s) f h k = k a s h
Holds-bind P Q blocked f h k = tt
Holds-bind P Q terminated f h k = tt

pub Holds-if {ℓ} :
    {A : Type ℓ} (P : A → Supervisor → Type 0) (b : Bool) (x y : Outcome A)
    → (b ≡ true → Holds P x)
    → (b ≡ false → Holds P y)
    → Holds P (if b then x else y)
Holds-if P true x y hx hy = hx refl
Holds-if P false x y hx hy = hy refl

pub Holds-if_act {ℓ} :
    {A : Type ℓ} (P : A → Supervisor → Type 0) (b : Bool) (m n : Act A) (s : Supervisor)
    → (b ≡ true → Holds P (m s))
    → (b ≡ false → Holds P (n s))
    → Holds P ((if b then m else n) s)
Holds-if_act P true m n s hm hn = hm refl
Holds-if_act P false m n s hm hn = hn refl

Holds-unlocked {ℓ} :
    {A : Type ℓ} (P : A → Supervisor → Type 0)
    → ((a : A) (s : Supervisor) → P a s → P a (record s { locked = false }))
    → (o : Outcome A) → Holds P o
    → Holds P (unlocked o)
Holds-unlocked P free (returns a s) h = free a s h
Holds-unlocked P free blocked h = tt
Holds-unlocked P free terminated h = tt

-- A property that does not look at the lock.
pub Holds-with_lock {ℓ} :
    {A : Type ℓ} (P : A → Supervisor → Type 0) (body : Act A) (s : Supervisor)
    → ((a : A) (t : Supervisor) → P a t → P a (record t { locked = false }))
    → Holds P (body (record s { locked = true }))
    → Holds P (with_lock body s)
unfolding with_lock
Holds-with_lock P body s free h = elim (Bool-cases s.locked) [
  | inl held ↦ rw (held, with_lock) tt
  | inr open_ ↦ rw (open_, with_lock) (Holds-unlocked P free (body (record s { locked = true })) h)
]
