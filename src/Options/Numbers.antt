-- ===== src/Options/Numbers.antt =====
-- parse_num of sandbox/src/main.cpp, over std::from_chars for an unsigned type of w bits.
use sandobox_cpp.Base.{
  ℕ, suc, ◌≡◌, ◌≢◌, ◌↔◌, ◌<◌, ◌^◌, refl, Bytes, [], ◌∷◌, ◌++◌, length, true, false, Bool-cases, inl,
  inr, not, ◌&&◌, text, ltb, ltb→lt, lt→ltb, ◌==◌, digits, digits_value, digits_value-digits, whole,
  Option, none, some, if◌then◌else◌, arith,
}
use sandobox_cpp.Result.{Result, Error, Errc, ok, err, Ensures, returns, refuses}

abbrev pub config_error : Bytes → Error
config_error message = record { code = Errc.config; message = message }

-- from_chars: the value and what is left of the text, if there is a digit in front and the number that
-- the digits make fits. There is no sign for an unsigned type, and no blank is skipped.
unfoldable pub from_chars : ℕ → Bytes → Option (ℕ × Bytes)
unfolding digits
from_chars w raw =
    let (n, rest) = digits 0 raw in
    if not (length rest == length raw) && ltb n (2 ^ w) then some (n, rest) else none

abbrev pub invalid_number : Bytes → Error
invalid_number raw = config_error (text "invalid number '" ++ (raw ++ text "'"))

abbrev pub at_end : Bytes → Option (ℕ × Bytes) → Result ℕ
at_end raw (some (n, [])) = ok n
at_end raw (some (n, c ∷ rest)) = err (invalid_number raw)
at_end raw none = err (invalid_number raw)

unfoldable pub parse_num : ℕ → Bytes → Result ℕ
unfolding from_chars
parse_num w raw = at_end raw (from_chars w raw)

accepted_iff :
    (bound : ℕ) (raw : Bytes) (m : ℕ) (rest : Bytes) (n : ℕ)
    → (at_end raw (if not (length rest == length raw) && ltb m bound then some (m, rest) else none)
        ≡ ok n)
      ↔ ((raw ≢ []) × (whole (m, rest) ≡ some n) × (n < bound))
accepted_iff bound [] m [] n = (λ e. cc, λ h. absurd (h.0 refl))
accepted_iff bound (c ∷ cs) m [] n =
    let apart : (0 == suc (length cs)) ≡ false = ground arith in
    elim (Bool-cases (ltb m bound)) [
      | inl fits ↦
          rw (apart, fits)
            (
              (λ e.
                  let same : m ≡ n = cc e in ((λ x. cc), cc e, rw (← same) (ltb→lt m bound fits))),
              (λ h. cc h.1),
            )
      | inr big ↦
          rw (apart, big)
            (
              (λ e. cc),
              (λ h.
                  let same : m ≡ n = cc h.1 in
                  let fits : ltb m bound ≡ true = lt→ltb m bound (rw same h.2) in cc (big, fits)),
            )
    ]
accepted_iff bound raw m (c ∷ rest) n = (ground arith, λ h. cc h.1)

-- parse_num accepts exactly the texts of one digit or more whose number fits the type, and returns that
-- number: no sign, no blank, nothing behind the digits, and no wrap-around.
pub parse_num-eq-ok_iff :
    (w : ℕ) (raw : Bytes) (n : ℕ)
    → (parse_num w raw ≡ ok n) ↔ ((raw ≢ []) × (digits_value 0 raw ≡ some n) × (n < 2 ^ w))
unfolding parse_num
parse_num-eq-ok_iff w raw n =
    rw (digits_value-digits) (accepted_iff (2 ^ w) raw (digits 0 raw).0 (digits 0 raw).1 n)

at_end_returns :
    (raw : Bytes) (found : Option (ℕ × Bytes))
    → Ensures (λ n. at_end raw found ≡ ok n) (at_end raw found)
at_end_returns raw (some (n, [])) = returns refl
at_end_returns raw (some (n, c ∷ rest)) = refuses
at_end_returns raw none = refuses

pub parse_num_returns :
    (w : ℕ) (raw : Bytes) → Ensures (λ n. parse_num w raw ≡ ok n) (parse_num w raw)
unfolding parse_num
parse_num_returns w raw = at_end_returns raw (from_chars w raw)
