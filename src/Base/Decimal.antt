-- ===== src/Base/Decimal.antt =====
-- Decimal numerals: what std::format and std::to_string print, and what std::from_chars reads.
use Prim.Native.Nat.{ℕ, zero, suc, ◌+◌, ◌-◌, ◌*◌, ◌/◌, ◌%◌, ◌<◌, ◌≤◌}
use mathlib.Core.Path.{◌≡◌, refl, ap, sym, ◌∙◌}
use mathlib.Core.Bool.{true, ◌&&◌, Bool}
use mathlib.Core.Logic.{inl, inr, ◌≢◌}
use mathlib.Core.Option.{Option, none, some}
use mathlib.Core.List.{[], ◌∷◌}
use native.Mathlib.Omega.{arith}
use sandobox_cpp.Base.Tests.{ltb, leb, if◌then◌else◌, le→leb, ltb→lt, not_ltb→le, Bool-cases}
use sandobox_cpp.Base.Lists.{drop}
use sandobox_cpp.Base.Strings.{Bytes}
use sandobox_cpp.Base.Int.{ℤ, pos, negsuc}

-- The digits of a number, in front of an accumulator; the fuel bounds their count.
unfoldable pub digits_onto : ℕ → ℕ → Bytes → Bytes
digits_onto zero n acc = acc
digits_onto (suc f) n acc =
    let rest = digits_onto f (n / 10) ((48 + n % 10) ∷ acc) in
    if ltb n 10 then (48 + n) ∷ acc else rest

-- std::format("{}", n) and std::to_string(n) of an unsigned number.
unfoldable pub decimal : ℕ → Bytes
unfolding digits_onto
decimal n = digits_onto (suc n) n []

-- std::format and std::to_string of a signed number.
unfoldable pub decimal_int : ℤ → Bytes
unfolding decimal
decimal_int (pos n) = decimal n
decimal_int (negsuc n) = b'-' ∷ decimal (suc n)

abbrev pub is_digit : ℕ → Bool
is_digit c = leb 48 c && leb c 57

-- The number that the digits in front make, behind `n`, and what follows them.
unfoldable pub digits : ℕ → Bytes → ℕ × Bytes
digits n [] = (n, [])
digits n (c ∷ cs) = if is_digit c then digits (n * 10 + (c - 48)) cs else (n, c ∷ cs)

-- The value of a run of digits, behind those that make up the accumulator.
unfoldable pub digits_value : ℕ → Bytes → Option ℕ
digits_value acc [] = some acc
digits_value acc (c ∷ cs) =
    if leb 48 c && leb c 57 then digits_value (acc * 10 + (c - 48)) cs else none

digits_value-cons :
    (acc d : ℕ) (cs : Bytes)
    → d < 10
    → digits_value acc ((48 + d) ∷ cs) ≡ digits_value (acc * 10 + d) cs
unfolding digits_value
digits_value-cons acc d cs h =
    let low : leb 48 (48 + d) ≡ true = le→leb 48 (48 + d) (omega arith) in
    let high : leb (48 + d) 57 ≡ true = le→leb (48 + d) 57 (omega arith) in
    let digit : 48 + d - 48 ≡ d = omega arith in rw (low, high, digit)

digits_value-digits_onto :
    (f n : ℕ) (cs : Bytes) → n < f → digits_value 0 (digits_onto f n cs) ≡ digits_value n cs
unfolding digits_onto
digits_value-digits_onto zero n cs h = absurd (omega arith)
digits_value-digits_onto (suc f) n cs h = elim (Bool-cases (ltb n 10)) [
  | inl small ↦ rw small (
      digits_value-cons 0 n cs (ltb→lt n 10 small)
      ∙ ap (λ k. digits_value k cs) {x = 0 * 10 + n} {y = n} (omega arith))
  | inr big ↦
      let le : 10 ≤ n = not_ltb→le n 10 big in
      rw big (
        digits_value-digits_onto f (n / 10) ((48 + n % 10) ∷ cs) (omega arith)
        ∙ (digits_value-cons (n / 10) (n % 10) cs (omega arith)
            ∙ ap (λ k. digits_value k cs) {x = n / 10 * 10 + n % 10} {y = n} (omega arith)))
]

-- What is printed is read back.
pub digits_value-decimal : (n : ℕ) → digits_value 0 (decimal n) ≡ some n
unfolding decimal
digits_value-decimal n =
    digits_value-digits_onto (suc n) n [] (omega arith) ∙ (unfold digits_value in refl)

decimal-ne-minus : (n : ℕ) (cs : Bytes) → decimal n ≢ b'-' ∷ cs
decimal-ne-minus n cs e =
    let read : digits_value 0 (b'-' ∷ cs) ≡ some n = rw (← e) (digits_value-decimal n) in
    unfold digits_value in cc read

pub decimal-injective : (m n : ℕ) → decimal m ≡ decimal n → m ≡ n
decimal-injective m n e = cc (digits_value-decimal m, digits_value-decimal n, e)

pub decimal_int-injective : (a b : ℤ) → decimal_int a ≡ decimal_int b → a ≡ b
unfolding decimal_int
decimal_int-injective (pos m) (pos n) e = ap pos (decimal-injective m n e)
decimal_int-injective (pos m) (negsuc n) e = absurd (decimal-ne-minus m _ e)
decimal_int-injective (negsuc m) (pos n) e = absurd (decimal-ne-minus n _ (sym e))
decimal_int-injective (negsuc m) (negsuc n) e =
    let digits : decimal (suc m) ≡ decimal (suc n) = ap (drop 1) e in
    ap negsuc {x = m} {y = n} (omega (arith, decimal-injective (suc m) (suc n) digits))

-- What is read, if nothing is left.
abbrev pub whole : ℕ × Bytes → Option ℕ
whole (n, []) = some n
whole (n, c ∷ cs) = none

pub digits_value-digits : (n : ℕ) (cs : Bytes) → digits_value n cs ≡ whole (digits n cs)
unfolding digits digits_value
digits_value-digits n [] = refl
digits_value-digits n (c ∷ cs) = elim (Bool-cases (is_digit c)) [
  | inl digit ↦ rw digit (digits_value-digits (n * 10 + (c - 48)) cs)
  | inr other ↦ rw other refl
]
