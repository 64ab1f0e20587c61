-- ===== src/Redis/Sound.antt =====
-- What parse_value accepts: exactly the encodings, within its fuel.
use sandobox_cpp.Base.{
  ℕ, zero, suc, ◌^◌, ◌<◌, ◌≤◌, ◌≡◌, ◌≢◌, ◌↔◌, refl, sym, ap, ◌∙◌, Bytes, Bool-cases, true, inl, inr,
  [], ◌∷◌, ◌++◌, length, take, drop, length-take, length-drop, drop-drop, length-append, ◌*◌,
  take-append-drop, ltb, not_ltb→le, ==_iff, ◌==◌, le_bytes, load_le-lt, le_bytes-load_le, AreBytes,
  AreBytes-take, AreBytes-drop, of_signed-to_signed, to_signed-FitsSigned, append_assoc, arith,
}
use sandobox_cpp.Result.{
  Result, ok, out_of_fuel, Ensures, returns, refuses, Ensures-bind, Ensures-if, Ensures-ok,
  Ensures-ne-out_of_fuel, ◌>>◌,
}
use sandobox_cpp.Redis.Response.{Response, Responses}
use sandobox_cpp.Redis.Parse.{
  Parser, need, word, parse_error, parse_str, parse_int, parse_dbl, parse_elems, parse_arr,
  parse_tagged, parse_value,
}
use sandobox_cpp.Redis.Wire.{size, counted, encode, encode_all, IsWire, AllWire, depth-le-length}
use sandobox_cpp.Redis.RoundTrip.{parse_value-encode}

Ensures-need {κ} :
    {A : Type 0} {P : A → Type κ} (n : ℕ) (rest : Bytes) {k : Result A}
    → (n ≤ length rest → Ensures P k)
    → Ensures P (need n rest >> k)
Ensures-need n rest h = elim (Bool-cases (ltb (length rest) n)) [
  | inl short ↦ rw short refuses
  | inr enough ↦ rw enough (h (not_ltb→le (length rest) n enough))
]

-- A word that is there is the encoding of its value.
word_split :
    (k : ℕ) (bs : Bytes) → AreBytes bs → k ≤ length bs → le_bytes k (word k bs) ++ drop k bs ≡ bs
word_split k bs b h =
    let full : length (take k bs) ≡ k = omega (arith, length-take k bs) in
    rw (rw full at (le_bytes-load_le (take k bs) (AreBytes-take k bs b))) (take-append-drop k bs)

word_bound : (k : ℕ) (bs : Bytes) → AreBytes bs → k ≤ length bs → word k bs < 256 ^ k
word_bound k bs b h =
    let full : length (take k bs) ≡ k = omega (arith, length-take k bs) in
    rw full at (load_le-lt (take k bs) (AreBytes-take k bs b))

-- The input is the encoding of the value and what is left, which is bytes again.
abbrev Consumes : Bytes → Response × Bytes → Type 0
Consumes bs r = (bs ≡ encode r.0 ++ r.1) × IsWire r.0 × AreBytes r.1

parse_int-Ensures : (bs : Bytes) → AreBytes bs → Ensures (Consumes (3 ∷ bs)) (parse_int bs)
unfolding parse_int encode IsWire
parse_int-Ensures bs b = Ensures-need 8 bs λ h. returns (
  ap (◌∷◌ 3) (
      rw (of_signed-to_signed (2 ^ 63) (word 8 bs) (word_bound 8 bs b h))
        (sym (word_split 8 bs b h))),
  to_signed-FitsSigned (2 ^ 63) (word 8 bs) (word_bound 8 bs b h),
  AreBytes-drop 8 bs b,
)

parse_dbl-Ensures : (bs : Bytes) → AreBytes bs → Ensures (Consumes (4 ∷ bs)) (parse_dbl bs)
unfolding parse_dbl encode IsWire
parse_dbl-Ensures bs b =
    Ensures-need 8 bs λ h.
      returns (ap (◌∷◌ 4) (sym (word_split 8 bs b h)), word_bound 8 bs b h, AreBytes-drop 8 bs b)

-- A counted run of bytes behind its length.
counted_split :
    (bs : Bytes)
    → AreBytes bs
    → 4 ≤ length bs
    → word 4 bs ≤ length (drop 4 bs)
    → counted (take (word 4 bs) (drop 4 bs)) ++ drop (word 4 bs) (drop 4 bs) ≡ bs
counted_split bs b h k =
    let n = word 4 bs in
    let full : length (take n (drop 4 bs)) ≡ n = omega (arith, length-take n (drop 4 bs)) in
    rw (full, append_assoc, take-append-drop n (drop 4 bs)) (word_split 4 bs b h)

counted_bound :
    (bs : Bytes) → AreBytes bs → 4 ≤ length bs → length (take (word 4 bs) (drop 4 bs)) < 2 ^ 32
counted_bound bs b h = omega (arith, word_bound 4 bs b h, length-take (word 4 bs) (drop 4 bs))

parse_str-Ensures : (bs : Bytes) → AreBytes bs → Ensures (Consumes (2 ∷ bs)) (parse_str bs)
unfolding parse_str encode IsWire
parse_str-Ensures bs b = Ensures-need 4 bs λ h. Ensures-need (word 4 bs) (drop 4 bs) λ k. returns (
  ap (◌∷◌ 2) (sym (counted_split bs b h k)),
  counted_bound bs b h,
  AreBytes-drop (word 4 bs) _ (AreBytes-drop 4 bs b),
)

parse_error-Ensures : (bs : Bytes) → AreBytes bs → Ensures (Consumes (1 ∷ bs)) (parse_error bs)
unfolding parse_error encode IsWire
parse_error-Ensures bs b = Ensures-need 8 bs λ h.
    let tail = drop 4 bs in
    let both : drop 4 tail ≡ drop 8 bs = drop-drop 4 4 8 bs refl in
    let long : 4 ≤ length tail = omega (arith, length-drop 4 bs) in
    let tail_bytes : AreBytes tail = AreBytes-drop 4 bs b in
    let fits : word 4 bs < 2 * 2 ^ 31 = word_bound 4 bs b (omega arith) in
    rw (← both) (
      Ensures-need (word 4 tail) (drop 4 tail) λ k. returns (
        ap (◌∷◌ 1) (
            rw
              (
                of_signed-to_signed (2 ^ 31) (word 4 bs) fits,
                append_assoc,
                counted_split tail tail_bytes long k,
              )
              (sym (word_split 4 bs b (omega arith)))),
        (to_signed-FitsSigned (2 ^ 31) (word 4 bs) fits, counted_bound tail tail_bytes long),
        AreBytes-drop (word 4 tail) _ (AreBytes-drop 4 tail tail_bytes),
      ))

-- The elements of an array, when each is parsed soundly.
abbrev ConsumesAll : ℕ → Bytes → Responses × Bytes → Type 0
ConsumesAll n bs r = (bs ≡ encode_all r.0 ++ r.1) × (size r.0 ≡ n) × AllWire r.0 × AreBytes r.1

parse_elems-Ensures :
    (value : Parser Response) (f : ℕ)
    → ((cs : Bytes) → AreBytes cs → length cs < f → Ensures (Consumes cs) (value cs))
    → (n : ℕ) (bs : Bytes) → AreBytes bs
    → length bs < f
    → Ensures (ConsumesAll n bs) (parse_elems value n bs)
unfolding parse_elems encode IsWire
parse_elems-Ensures value f sound zero bs b h = returns (refl, refl, tt, b)
parse_elems-Ensures value f sound (suc n) bs b h = Ensures-bind (sound bs b h) λ (x, after) p.
    let shorter : length after < f =
      omega (arith, ap length p.0, length-append {0} (encode x) after) in
    Ensures-bind (parse_elems-Ensures value f sound n after p.2 shorter) λ (xs, last) q. returns (
      p.0 ∙ (ap (◌++◌ (encode x)) q.0 ∙ sym (append_assoc (encode x) (encode_all xs) last)),
      ap suc q.1,
      (p.1, q.2),
      q.3,
    )

parse_arr-Ensures :
    (value : Parser Response) (f : ℕ)
    → ((cs : Bytes) → AreBytes cs → length cs < f → Ensures (Consumes cs) (value cs))
    → (bs : Bytes) → AreBytes bs
    → length bs < f
    → Ensures (Consumes (5 ∷ bs)) (parse_arr value bs)
unfolding parse_arr encode IsWire
parse_arr-Ensures value f sound bs b h = Ensures-need 4 bs λ long.
    Ensures-bind
      (parse_elems-Ensures value f sound (word 4 bs) (drop 4 bs) (AreBytes-drop 4 bs b)
        (omega (arith, length-drop 4 bs)))
      λ (xs, after) p. returns (
        ap (◌∷◌ 5) (rw (p.1, append_assoc, ← p.0) (sym (word_split 4 bs b long))),
        (rw p.1 (word_bound 4 bs b long), p.2),
        p.3,
      )

at_tag :
    (tag k : ℕ) (bs : Bytes) {r : Result (Response × Bytes)}
    → (tag == k) ≡ true
    → Ensures (Consumes (k ∷ bs)) r
    → Ensures (Consumes (tag ∷ bs)) r
at_tag tag k bs e h = rw ((==_iff tag k).0 e) h

parse_tagged-Ensures :
    (value : Parser Response) (f : ℕ)
    → ((cs : Bytes) → AreBytes cs → length cs < f → Ensures (Consumes cs) (value cs))
    → (tag : ℕ) (bs : Bytes) → AreBytes bs
    → length bs < f
    → Ensures (Consumes (tag ∷ bs)) (parse_tagged value tag bs)
unfolding parse_tagged encode IsWire
parse_tagged-Ensures value f sound tag bs b h =
    Ensures-if (tag == 0) (λ e. at_tag tag 0 bs e (returns (refl, tt, b)))
      λ _.
        Ensures-if (tag == 1) (λ e. at_tag tag 1 bs e (parse_error-Ensures bs b))
          λ _.
            Ensures-if (tag == 2) (λ e. at_tag tag 2 bs e (parse_str-Ensures bs b))
              λ _.
                Ensures-if (tag == 3) (λ e. at_tag tag 3 bs e (parse_int-Ensures bs b))
                  λ _.
                    Ensures-if (tag == 4) (λ e. at_tag tag 4 bs e (parse_dbl-Ensures bs b))
                      λ _.
                        Ensures-if (tag == 5)
                          (λ e. at_tag tag 5 bs e (parse_arr-Ensures value f sound bs b h))
                          λ _. refuses

parse_value-Ensures :
    (f : ℕ) (bs : Bytes) → AreBytes bs → length bs < f → Ensures (Consumes bs) (parse_value f bs)
unfolding parse_value
parse_value-Ensures zero bs b h = absurd (omega arith)
parse_value-Ensures (suc f) [] b h = refuses
parse_value-Ensures (suc f) (tag ∷ bs) b h =
    parse_tagged-Ensures (parse_value f) f (parse_value-Ensures f) tag bs b.1 (omega arith)

-- With more fuel than there are bytes, parse_value comes to an end on every input: it returns a value
-- or an error of the program.
pub parse_value-ne-out_of_fuel :
    (f : ℕ) (bs : Bytes) → AreBytes bs → length bs < f → parse_value f bs ≢ out_of_fuel
parse_value-ne-out_of_fuel f bs b h = Ensures-ne-out_of_fuel (parse_value-Ensures f bs b h)

-- On bytes and with more fuel than there are of them, parse_value returns a value and a rest exactly
-- when the input is the encoding of that value, every number of it in range, and then the rest.
pub parse_value-eq-ok_iff :
    (f : ℕ) (bs : Bytes) (v : Response) (rest : Bytes)
    → AreBytes bs
    → length bs < f
    → (parse_value f bs ≡ ok (v, rest)) ↔ ((bs ≡ encode v ++ rest) × IsWire v)
parse_value-eq-ok_iff f bs v rest b h = (
  λ e. let c = Ensures-ok (parse_value-Ensures f bs b h) e in (c.0, c.1),
  λ p. rw p.0 (
      parse_value-encode v f rest p.1
        (omega (arith, ap length p.0, length-append {0} (encode v) rest, depth-le-length v))),
)
