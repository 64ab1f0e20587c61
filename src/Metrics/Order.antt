-- ===== src/Metrics/Order.antt =====
-- operator< of std::string, by which a std::map orders its keys.
use sandobox_cpp.Base.{
  ◌≡◌, refl, Bytes, [], ◌∷◌, Bool, true, false, ltb, ◌==◌, ◌&&◌, ◌||◌, bytes_eq, arith,
}

unfoldable pub bytes_lt : Bytes → Bytes → Bool
bytes_lt a [] = false
bytes_lt [] (y ∷ ys) = true
bytes_lt (x ∷ xs) (y ∷ ys) = ltb x y || (x == y && bytes_lt xs ys)

pub bytes_lt_trans :
    (a b c : Bytes) → bytes_lt a b ≡ true → bytes_lt b c ≡ true → bytes_lt a c ≡ true
unfolding bytes_lt
bytes_lt_trans a b [] p q = q
bytes_lt_trans a [] (z ∷ zs) p q = cc
bytes_lt_trans [] (y ∷ ys) (z ∷ zs) p q = refl
bytes_lt_trans (x ∷ xs) (y ∷ ys) (z ∷ zs) p q = ground (arith, bytes_lt_trans xs ys zs)

pub bytes_lt_irrefl : (a : Bytes) → bytes_lt a a ≡ false
unfolding bytes_lt
bytes_lt_irrefl [] = refl
bytes_lt_irrefl (x ∷ xs) = ground (arith, bytes_lt_irrefl xs)

-- Of two texts, one is smaller, or they are equal.
pub bytes_lt_total :
    (a b : Bytes) → bytes_eq b a ≡ false → bytes_lt a b ≡ false → bytes_lt b a ≡ true
unfolding bytes_lt bytes_eq
bytes_lt_total [] [] p q = cc
bytes_lt_total [] (y ∷ ys) p q = cc
bytes_lt_total (x ∷ xs) [] p q = refl
bytes_lt_total (x ∷ xs) (y ∷ ys) p q = ground (arith, bytes_lt_total xs ys)
