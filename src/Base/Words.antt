-- ===== src/Base/Words.antt =====
-- Little-endian words, as memcpy lays them out on the targets of the build.
use Prim.Native.Nat.{ℕ, zero, suc, ◌+◌, ◌*◌, ◌/◌, ◌%◌, ◌^◌, ◌<◌}
use native.Mathlib.Nat.{pow-suc}
use mathlib.Core.Path.{◌≡◌, refl, ap}
use mathlib.Core.List.{[], ◌∷◌, ◌++◌}
use native.Mathlib.Omega.{arith}
use sandobox_cpp.Base.Lists.{length, take, drop, take-append, drop-append}
use sandobox_cpp.Base.Strings.{Bytes}

-- The low k bytes of a word, lowest first.
unfoldable pub le_bytes : ℕ → ℕ → Bytes
le_bytes zero n = []
le_bytes (suc k) n = n % 256 ∷ le_bytes k (n / 256)

-- The word that stands in a run of bytes.
unfoldable pub load_le : Bytes → ℕ
load_le [] = 0
load_le (b ∷ bs) = b + 256 * load_le bs

abbrev pub AreBytes : Bytes → Type 0
AreBytes [] = Unit
AreBytes (b ∷ bs) = (b < 256) × AreBytes bs

pub length-le_bytes : (k n : ℕ) → length (le_bytes k n) ≡ k
unfolding le_bytes
length-le_bytes zero n = refl
length-le_bytes (suc k) n = ap suc (length-le_bytes k (n / 256))

pub take-le_bytes : (k n : ℕ) (rest : Bytes) → take k (le_bytes k n ++ rest) ≡ le_bytes k n
take-le_bytes k n rest = rw length-le_bytes at (take-append (le_bytes k n) rest)

pub drop-le_bytes : (k n : ℕ) (rest : Bytes) → drop k (le_bytes k n ++ rest) ≡ rest
drop-le_bytes k n rest = rw length-le_bytes at (drop-append (le_bytes k n) rest)

pub load_le-le_bytes : (k n : ℕ) → n < 256 ^ k → load_le (le_bytes k n) ≡ n
unfolding le_bytes load_le
load_le-le_bytes zero n h = omega arith
load_le-le_bytes (suc k) n h =
    let split : n < 256 ^ k * 256 = rw (← pow-suc 256 k) h in
    omega (arith, load_le-le_bytes k (n / 256) (omega arith))

pub le_bytes-load_le : (bs : Bytes) → AreBytes bs → le_bytes (length bs) (load_le bs) ≡ bs
unfolding le_bytes load_le
le_bytes-load_le [] h = refl
le_bytes-load_le (b ∷ bs) h =
    let low : (b + 256 * load_le bs) % 256 ≡ b = omega arith in
    let high : (b + 256 * load_le bs) / 256 ≡ load_le bs = omega arith in
    rw (low, high, le_bytes-load_le bs h.1)

pub load_le-lt : (bs : Bytes) → AreBytes bs → load_le bs < 256 ^ length bs
unfolding load_le
load_le-lt [] h = omega arith
load_le-lt (b ∷ bs) h =
    let grow : 256 ^ suc (length bs) ≡ 256 ^ length bs * 256 = pow-suc 256 (length bs) in
    rw grow (omega (arith, load_le-lt bs h.1))

pub AreBytes-le_bytes : (k n : ℕ) → AreBytes (le_bytes k n)
unfolding le_bytes
AreBytes-le_bytes zero n = tt
AreBytes-le_bytes (suc k) n = (omega arith, AreBytes-le_bytes k (n / 256))

pub AreBytes-append : (a b : Bytes) → AreBytes a → AreBytes b → AreBytes (a ++ b)
AreBytes-append [] b ha hb = hb
AreBytes-append (x ∷ a) b ha hb = (ha.0, AreBytes-append a b ha.1 hb)

pub AreBytes-take : (k : ℕ) (bs : Bytes) → AreBytes bs → AreBytes (take k bs)
AreBytes-take zero bs h = tt
AreBytes-take (suc k) [] h = tt
AreBytes-take (suc k) (b ∷ bs) h = (h.0, AreBytes-take k bs h.1)

pub AreBytes-drop : (k : ℕ) (bs : Bytes) → AreBytes bs → AreBytes (drop k bs)
AreBytes-drop zero bs h = h
AreBytes-drop (suc k) [] h = tt
AreBytes-drop (suc k) (b ∷ bs) h = AreBytes-drop k bs h.1
