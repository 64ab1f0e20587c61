-- ===== src/Result.antt =====
-- sandbox/include/devops/result.hpp. `out_of_fuel` has no counterpart in the program: a loop of the
-- model returns it when its fuel runs out.
use sandobox_cpp.Base.{Bytes, text, ◌++◌, ◌≡◌, refl, Bool, true, false, ◌≢◌, subst, if◌then◌else◌}

pub data Errc : Type 0 where
  system protocol config state : Errc

pub record Error : Type 0 where
  pub code : Errc
  pub message : Bytes

-- Error::system(what), where `reason` is strerror(errno) at the time of the call.
abbrev pub system_error : Bytes → Bytes → Error
system_error what reason = record { code = Errc.system; message = what ++ (text ": " ++ reason) }

pub data Result {ℓ} (A : Type ℓ) : Type ℓ where
  ok : A → Result A
  err : Error → Result A
  out_of_fuel : Result A

infixl 5 ◌>>=◌ ◌>>◌
-- `if (auto g = m; g.is_err()) return g.error();` and then f.
abbrev pub ◌>>=◌ {ℓ κ} : {A : Type ℓ} {B : Type κ} → Result A → (A → Result B) → Result B
out_of_fuel >>= next = out_of_fuel
err e >>= next = err e
ok a >>= next = next a

abbrev pub ◌>>◌ {ℓ} : {B : Type ℓ} → Result (Unit {0}) → Result B → Result B
first >> second = first >>= λ _. second

-- The run kept within its fuel, and P holds of its value if it has one.
pub data Ensures {ℓ κ} {A : Type ℓ} (P : A → Type κ) : Result A → Type (ℓ ⊔ κ) where
  returns : {a : A} → P a → Ensures P (ok a)
  refuses : {e : Error} → Ensures P (err e)

module _ {ℓ κ} {A : Type ℓ} {P : A → Type κ} where
  pub Ensures-ok : {r : Result A} {a : A} → Ensures P r → r ≡ ok a → P a
  Ensures-ok (returns h) e = subst P (cc) h
  Ensures-ok refuses e = cc

  pub Ensures-ne-out_of_fuel : {r : Result A} → Ensures P r → r ≢ out_of_fuel
  Ensures-ne-out_of_fuel (returns h) = cc
  Ensures-ne-out_of_fuel refuses = cc

  pub Ensures-bind {ℓ' κ'} :
      {B : Type ℓ'} {Q : B → Type κ'} {r : Result A} {f : A → Result B}
      → Ensures P r
      → ((a : A) → P a → Ensures Q (f a))
      → Ensures Q (r >>= f)
  Ensures-bind (returns {a} h) k = k a h
  Ensures-bind refuses k = refuses

  pub Ensures-map {κ'} :
      {Q : A → Type κ'} {r : Result A} → ((a : A) → P a → Q a) → Ensures P r → Ensures Q r
  Ensures-map k (returns {a} h) = returns (k a h)
  Ensures-map k refuses = refuses

  pub Ensures-if :
      (b : Bool) {x y : Result A}
      → (b ≡ true → Ensures P x)
      → (b ≡ false → Ensures P y)
      → Ensures P (if b then x else y)
  Ensures-if true hx hy = hx refl
  Ensures-if false hx hy = hy refl
