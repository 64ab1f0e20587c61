-- ===== src/Base/Recent.antt =====
-- Filters, and windows on the end of a list.
use Prim.Native.Nat.{ℕ, zero, suc, ◌-◌, ◌≤◌, ◌<◌, min}
use mathlib.Core.Path.{◌≡◌, refl, sym}
use mathlib.Core.Bool.{Bool}
use mathlib.Core.List.{List, [], ◌∷◌, ◌++◌, reverse, reverse-cons, append-nil}
use native.Mathlib.Omega.{arith}
use mathlib.Core.Logic.{inl, inr}
use sandobox_cpp.Base.Tests.{leb, leb→le, not_leb→lt, Bool-cases}
use sandobox_cpp.Base.Lists.{
  length, length-append, take, drop, drop-nil, drop-drop, length-drop, filter,
}

module _ {ℓ} {A : Type ℓ} where
  -- The last n elements.
  unfoldable pub last_n : ℕ → List A → List A
  last_n n xs = drop (length xs - n) xs

  pub filter-append :
      (p : A → Bool) (xs ys : List A) → filter p (xs ++ ys) ≡ filter p xs ++ filter p ys
  filter-append p [] ys = refl
  filter-append p (x ∷ xs) ys = ground (arith, filter-append p xs ys)

  pub filter-reverse : (p : A → Bool) (xs : List A) → filter p (reverse xs) ≡ reverse (filter p xs)
  filter-reverse p [] = refl
  filter-reverse p (x ∷ xs) =
      rw (reverse-cons x xs, filter-append p (reverse xs) (x ∷ []), filter-reverse p xs)
        (ground (arith, reverse-cons x (filter p xs), append-nil (reverse (filter p xs))))

  pub drop-append_le :
      (n : ℕ) (xs ys : List A) → n ≤ length xs → drop n (xs ++ ys) ≡ drop n xs ++ ys
  drop-append_le zero xs ys h = refl
  drop-append_le (suc n) [] ys h = absurd (omega arith)
  drop-append_le (suc n) (x ∷ xs) ys h = drop-append_le n xs ys (omega arith)

  pub drop_all : (n : ℕ) (xs : List A) → length xs ≤ n → drop n xs ≡ []
  drop_all zero [] h = refl
  drop_all zero (x ∷ xs) h = absurd (omega arith)
  drop_all (suc n) [] h = refl
  drop_all (suc n) (x ∷ xs) h = drop_all n xs (omega arith)

  pub last_n-nil : (n : ℕ) → last_n n [] ≡ []
  unfolding last_n
  last_n-nil n = drop-nil (0 - n)

  -- A window that has room for one element more at the end.
  pub last_n-snoc :
      (n : ℕ) (xs : List A) (x : A) → last_n (suc n) (xs ++ x ∷ []) ≡ last_n n xs ++ x ∷ []
  unfolding last_n
  last_n-snoc n xs x =
      let same : length (xs ++ x ∷ []) - suc n ≡ length xs - n =
        omega (arith, length-append xs (x ∷ [])) in
      rw same (drop-append_le (length xs - n) xs (x ∷ []) (omega arith))

  pub last_n-zero : (xs : List A) → last_n 0 xs ≡ []
  unfolding last_n
  last_n-zero xs = drop_all (length xs - 0) xs (omega arith)

  pub length-last_n : (n : ℕ) (xs : List A) → length (last_n n xs) ≡ min n (length xs)
  unfolding last_n
  length-last_n n xs = omega (arith, length-drop (length xs - n) xs)

  pub last_n-append : (n : ℕ) (xs ys : List A) → last_n n (last_n n xs ++ ys) ≡ last_n n (xs ++ ys)
  unfolding last_n
  last_n-append n xs ys =
      let d : ℕ = length xs - n in
      let moved : drop d xs ++ ys ≡ drop d (xs ++ ys) =
        sym (drop-append_le d xs ys (omega arith)) in
      rw moved (
        drop-drop d _ (length (xs ++ ys) - n) (xs ++ ys)
          (omega (arith, length-drop d (xs ++ ys), length-append xs ys)))

  pub last_n_all : (n : ℕ) (xs : List A) → length xs ≤ n → last_n n xs ≡ xs
  unfolding last_n
  last_n_all n xs h = let none_dropped : length xs - n ≡ 0 = omega arith in rw none_dropped

  -- A window of a longer window, one element later.
  pub last_n-last_n : (m n : ℕ) (xs : List A) → m ≤ n → last_n m (last_n n xs) ≡ last_n m xs
  unfolding last_n
  last_n-last_n m n xs h =
      drop-drop (length xs - n) _ (length xs - m) xs (omega (arith, length-drop (length xs - n) xs))

  pub last_n-min : (m n : ℕ) (xs : List A) → last_n m (last_n n xs) ≡ last_n (min m n) xs
  last_n-min m n xs = elim (Bool-cases (leb m n)) [
    | inl le ↦
        let e : min m n ≡ m = omega (arith, leb→le m n le) in
        rw e (last_n-last_n m n xs (leb→le m n le))
    | inr gt ↦
        let lt : n < m = not_leb→lt m n gt in
        let e : min m n ≡ n = omega arith in
        rw e (last_n_all m (last_n n xs) (omega (arith, length-last_n n xs)))
  ]

  -- The first n in reverse are the last n of the reverse.
  pub reverse-take : (n : ℕ) (xs : List A) → reverse (take n xs) ≡ last_n n (reverse xs)
  reverse-take zero [] = sym (last_n-nil 0)
  reverse-take (suc n) [] = sym (last_n-nil (suc n))
  reverse-take zero (x ∷ xs) = sym (last_n-zero (reverse (x ∷ xs)))
  reverse-take (suc n) (x ∷ xs) =
      rw (reverse-cons x (take n xs), reverse-cons x xs, last_n-snoc, reverse-take n xs)
