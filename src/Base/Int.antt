-- ===== src/Base/Int.antt =====
-- Signed integers over the native numbers, and the two's complement reading of a word.
use Prim.Native.Nat.{ℕ, ◌-◌, ◌*◌, ◌<◌}
use mathlib.Core.Path.{◌≡◌}
use native.Mathlib.Omega.{arith}
use sandobox_cpp.Base.Tests.{ltb, if◌then◌else◌}

-- `negsuc n` is -(n + 1).
pub data ℤ : Type 0 where
  pos : ℕ → ℤ
  negsuc : ℕ → ℤ

-- static_cast of an unsigned word of modulus `2 * h` to its signed type.
abbrev pub to_signed : ℕ → ℕ → ℤ
to_signed h w = if ltb w h then pos w else negsuc (2 * h - w - 1)

-- and back
abbrev pub of_signed : ℕ → ℤ → ℕ
of_signed h (pos n) = n
of_signed h (negsuc n) = 2 * h - n - 1

abbrev pub FitsSigned : ℕ → ℤ → Type 0
FitsSigned h (pos n) = n < h
FitsSigned h (negsuc n) = n < h

pub to_signed-of_signed : (h : ℕ) (z : ℤ) → FitsSigned h z → to_signed h (of_signed h z) ≡ z
to_signed-of_signed h (pos n) f = ground arith
to_signed-of_signed h (negsuc n) f = ground arith

pub of_signed-to_signed : (h w : ℕ) → w < 2 * h → of_signed h (to_signed h w) ≡ w
of_signed-to_signed h w f = ground arith

pub of_signed-lt : (h : ℕ) (z : ℤ) → FitsSigned h z → of_signed h z < 2 * h
of_signed-lt h (pos n) f = omega arith
of_signed-lt h (negsuc n) f = omega arith

pub to_signed-FitsSigned : (h w : ℕ) → w < 2 * h → FitsSigned h (to_signed h w)
to_signed-FitsSigned h w f = ground arith
