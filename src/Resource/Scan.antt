-- ===== src/Resource/Scan.antt =====
-- operator>> of an input stream over the bytes of a line: unsigned numbers, and words between blanks.
use sandobox_cpp.Base.{
  digits, ℕ, zero, suc, ◌-◌, ◌%◌, ◌^◌, Bytes, [], ◌∷◌, length, ltb, leb, ◌==◌, Bool, true, false,
  ◌&&◌, ◌||◌, Option, none, some, if◌then◌else◌,
}

abbrev pub is_blank : ℕ → Bool
is_blank c = (c == 32) || (leb 9 c && leb c 13)

unfoldable pub skip_blanks : Bytes → Bytes
skip_blanks [] = []
skip_blanks (c ∷ cs) = if is_blank c then skip_blanks cs else c ∷ cs

unfoldable pub skip_word : Bytes → Bytes
skip_word [] = []
skip_word (c ∷ cs) = if is_blank c then c ∷ cs else skip_word cs

unfoldable pub skip_tokens : ℕ → Bytes → Bytes
skip_tokens zero cs = cs
skip_tokens (suc n) cs = skip_tokens n (skip_word (skip_blanks cs))

-- A minus sign, which an unsigned number may have too, or a plus sign.
unfoldable pub sign : Bytes → Bool × Bytes
sign [] = (false, [])
sign (c ∷ cs) = if c == 45 then (true, cs) else if c == 43 then (false, cs) else (false, c ∷ cs)

-- A number of w bits: its value, and the rest, or none if the stream fails. With no digit it is 0, and
-- one that is too large is the largest.
unfoldable pub extract : ℕ → Bytes → ℕ × Option Bytes
unfolding skip_blanks digits sign
extract w cs =
    let (negative, after) = sign (skip_blanks cs) in
    let (n, rest) = digits 0 after in
    if length rest == length after
    then (0, none)
    else if ltb n (2 ^ w)
    then ((if negative then (2 ^ w - n) % 2 ^ w else n), some rest)
    else (2 ^ w - 1, none)

-- stream >> old: where there is nothing but blanks, the old value stays.
unfoldable pub read_into : ℕ → ℕ → Bytes → ℕ
unfolding extract
read_into w old cs = if length (skip_blanks cs) == 0 then old else (extract w cs).0
