-- ===== src/Redis/Wire.antt =====
-- The reply format as a printer, written down apart from the parser: a tag, then little-endian words
-- and counted runs of bytes.
use Prim.Native.Nat.{max}
use sandobox_cpp.Base.{
  ℕ, suc, ◌^◌, ◌<◌, ◌≤◌, Bytes, [], ◌∷◌, ◌++◌, length, length-append, le_bytes, of_signed,
  FitsSigned, arith,
}
use sandobox_cpp.Redis.Response.{Response, Responses, nil, error, str, int, dbl, arr, end, cons}

-- vector::size
abbrev pub size : Responses → ℕ
size end = 0
size (cons x xs) = suc (size xs)

abbrev pub counted : Bytes → Bytes
counted s = le_bytes 4 (length s) ++ s

unfoldable mutual
  pub encode : Response → Bytes
  encode nil = 0 ∷ []
  encode (error code message) = 1 ∷ (le_bytes 4 (of_signed (2 ^ 31) code) ++ counted message)
  encode (str s) = 2 ∷ counted s
  encode (int n) = 3 ∷ le_bytes 8 (of_signed (2 ^ 63) n)
  encode (dbl bits) = 4 ∷ le_bytes 8 bits
  encode (arr xs) = 5 ∷ (le_bytes 4 (size xs) ++ encode_all xs)

  pub encode_all : Responses → Bytes
  encode_all end = []
  encode_all (cons x xs) = encode x ++ encode_all xs

-- The levels of nesting.
unfoldable mutual
  pub depth : Response → ℕ
  depth nil = 1
  depth (error code message) = 1
  depth (str s) = 1
  depth (int n) = 1
  depth (dbl bits) = 1
  depth (arr xs) = suc (depth_all xs)

  pub depth_all : Responses → ℕ
  depth_all end = 0
  depth_all (cons x xs) = max (depth x) (depth_all xs)

-- Numbers fit their words and counts fit 32 bits.
unfoldable mutual
  pub IsWire : Response → Type 0
  IsWire nil = Unit
  IsWire (error code message) = FitsSigned (2 ^ 31) code × (length message < 2 ^ 32)
  IsWire (str s) = length s < 2 ^ 32
  IsWire (int n) = FitsSigned (2 ^ 63) n
  IsWire (dbl bits) = bits < 2 ^ 64
  IsWire (arr xs) = (size xs < 2 ^ 32) × AllWire xs

  pub AllWire : Responses → Type 0
  AllWire end = Unit
  AllWire (cons x xs) = IsWire x × AllWire xs

mutual
  unfolding encode depth

  depth-le : (v : Response) → depth v ≤ length (encode v)
  depth-le nil = omega arith
  depth-le (error code message) = omega arith
  depth-le (str s) = omega arith
  depth-le (int n) = omega arith
  depth-le (dbl bits) = omega arith
  depth-le (arr xs) =
      omega (arith, depth_all-le xs, length-append {0} (le_bytes 4 (size xs)) (encode_all xs))

  depth_all-le : (xs : Responses) → depth_all xs ≤ length (encode_all xs)
  depth_all-le end = omega arith
  depth_all-le (cons x xs) =
      omega (arith, depth-le x, depth_all-le xs, length-append {0} (encode x) (encode_all xs))

-- The encoding of a value is at least as long as the value is deep.
pub depth-le-length : (v : Response) → depth v ≤ length (encode v)
depth-le-length v = depth-le v
