-- ===== src/Redis/RoundTrip.antt =====
-- What is printed in the reply format is read back by parse_value.
use sandobox_cpp.Base.{
  ℕ, zero, suc, ◌^◌, ◌<◌, ◌≤◌, ◌≡◌, refl, ap, ◌∙◌, Bytes, ◌++◌, length, drop, length-append,
  le_bytes, length-le_bytes, take-le_bytes, drop-le_bytes, load_le-le_bytes, of_signed-lt,
  to_signed, to_signed-of_signed, take-append, drop-append, append_assoc, le→not_ltb, arith,
}
use sandobox_cpp.Result.{ok}
use sandobox_cpp.Redis.Response.{Response, Responses, nil, error, str, int, dbl, arr, end, cons}
use sandobox_cpp.Redis.Parse.{
  need, parse_error, parse_str, parse_int, parse_dbl, parse_elems, parse_value,
}
use sandobox_cpp.Redis.Wire.{size, counted, encode, encode_all, depth, depth_all, IsWire, AllWire}

need_le : (n : ℕ) (rest : Bytes) → n ≤ length rest → need n rest ≡ ok tt
need_le n rest h = rw (le→not_ltb (length rest) n h)

need-append : (a b : Bytes) → need (length a) (a ++ b) ≡ ok tt
need-append a b = need_le (length a) (a ++ b) (omega (arith, length-append {0} a b))

need-le_bytes : (k n : ℕ) (rest : Bytes) → need k (le_bytes k n ++ rest) ≡ ok tt
need-le_bytes k n rest =
    need_le k _ (omega (arith, length-append {0} (le_bytes k n) rest, length-le_bytes k n))

ruleset fields = (
  append_assoc, need-append, take-le_bytes, drop-le_bytes, need-le_bytes, take-append, drop-append,
)

drop_two_words : (a b : ℕ) (rest : Bytes) → drop 8 (le_bytes 4 a ++ (le_bytes 4 b ++ rest)) ≡ rest
unfolding le_bytes
drop_two_words a b rest = refl

need_two_words : (a b : ℕ) (rest : Bytes) → need 8 (le_bytes 4 a ++ (le_bytes 4 b ++ rest)) ≡ ok tt
unfolding le_bytes
need_two_words a b rest = need_le 8 (le_bytes 4 a ++ (le_bytes 4 b ++ rest)) (omega arith)

parse_str-counted :
    (s rest : Bytes) → length s < 2 ^ 32 → parse_str (counted s ++ rest) ≡ ok (str s, rest)
unfolding parse_str
parse_str-counted s rest h = simp (fields, load_le-le_bytes 4 (length s) h)

parse_int-word :
    (w : ℕ) (rest : Bytes)
    → w < 2 ^ 64
    → parse_int (le_bytes 8 w ++ rest) ≡ ok (int (to_signed (2 ^ 63) w), rest)
unfolding parse_int
parse_int-word w rest h = simp (fields, load_le-le_bytes 8 w h)

parse_dbl-word :
    (w : ℕ) (rest : Bytes) → w < 2 ^ 64 → parse_dbl (le_bytes 8 w ++ rest) ≡ ok (dbl w, rest)
unfolding parse_dbl
parse_dbl-word w rest h = simp (fields, load_le-le_bytes 8 w h)

parse_error-counted :
    (w : ℕ) (s rest : Bytes)
    → w < 2 ^ 32
    → length s < 2 ^ 32
    → parse_error ((le_bytes 4 w ++ counted s) ++ rest) ≡ ok (error (to_signed (2 ^ 31) w) s, rest)
unfolding parse_error
parse_error-counted w s rest hw hs = simp (
  drop_two_words,
  need_two_words,
  fields,
  load_le-le_bytes 4 w hw,
  load_le-le_bytes 4 (length s) hs,
)

-- Fuel of at least one level is a successor.
spend {ℓ} : (P : ℕ → Type ℓ) (n : ℕ) → ((f : ℕ) → n ≤ f → P (suc f)) → (f : ℕ) → suc n ≤ f → P f
spend P n k zero h = absurd (omega arith)
spend P n k (suc f) h = k f (omega arith)

abbrev Reads : Response → Bytes → ℕ → Type 0
Reads v rest f = parse_value f (encode v ++ rest) ≡ ok (v, rest)

mutual
  unfolding parse_value encode depth IsWire

  Reads-value : (v : Response) (rest : Bytes) → IsWire v → (f : ℕ) → depth v ≤ f → Reads v rest f
  Reads-value nil rest w = spend (Reads nil rest) 0 λ f h. refl
  Reads-value (error code message) rest w = spend (Reads (error code message) rest) 0 λ f h.
      parse_error-counted _ message rest (of_signed-lt (2 ^ 31) code w.0) w.1
      ∙ ap (λ c. ok (error c message, rest)) (to_signed-of_signed (2 ^ 31) code w.0)
  Reads-value (str s) rest w = spend (Reads (str s) rest) 0 λ f h. parse_str-counted s rest w
  Reads-value (int n) rest w = spend (Reads (int n) rest) 0 λ f h.
      parse_int-word _ rest (of_signed-lt (2 ^ 63) n w)
      ∙ ap (λ c. ok (int c, rest)) (to_signed-of_signed (2 ^ 63) n w)
  Reads-value (dbl bits) rest w = spend (Reads (dbl bits) rest) 0 λ f h. parse_dbl-word bits rest w
  Reads-value (arr xs) rest w =
      spend (Reads (arr xs) rest) (depth_all xs)
        λ f h. simp (fields, load_le-le_bytes 4 (size xs) w.0, reads_all xs rest w.1 f h)

  reads_all :
      (xs : Responses) (rest : Bytes)
      → AllWire xs
      → (f : ℕ) → depth_all xs ≤ f
      → parse_elems (parse_value f) (size xs) (encode_all xs ++ rest) ≡ ok (xs, rest)
  reads_all end rest w f h = refl
  reads_all (cons x xs) rest w f h = simp (
    append_assoc,
    Reads-value x (encode_all xs ++ rest) w.0 f (omega arith),
    reads_all xs rest w.1 f (omega arith),
  )

-- With fuel for the depth of the value, and from any input that begins with its encoding, parse_value
-- returns the value and stops right behind the encoding, whatever follows.
pub parse_value-encode :
    (v : Response) (f : ℕ) (rest : Bytes)
    → IsWire v
    → depth v ≤ f
    → parse_value f (encode v ++ rest) ≡ ok (v, rest)
parse_value-encode v f rest w h = Reads-value v rest w f h
