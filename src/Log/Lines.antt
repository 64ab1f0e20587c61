-- ===== src/Log/Lines.antt =====
-- How push_raw takes a line apart.
use sandobox_cpp.Base.{
  ℕ, suc, ◌+◌, ◌≡◌, refl, sym, ap, ◌∙◌, Bytes, [], ◌∷◌, ◌++◌, length, length-append, drop-append,
  append_assoc, drop, none, some, Option-cases, Bool-cases, inl, inr, ◌⊎◌, text, starts_with,
  find_char, ==_iff, ◌==◌, arith,
}
use sandobox_cpp.Log.{after_space, classify}

-- The byte does not occur.
abbrev pub Lacks : ℕ → Bytes → Type 0
Lacks c s = find_char c s ≡ none

-- find_char stops at the first occurrence.
find_char_split :
    (c : ℕ) (s : Bytes) (i : ℕ)
    → find_char c s ≡ some i
    → (word : Bytes) × (s ≡ word ++ c ∷ drop (i + 1) s) × Lacks c word
unfolding find_char
find_char_split c [] i e = cc
find_char_split c (d ∷ ds) i e = elim (Bool-cases (d == c)) [
  | inl here ↦
      let first : i ≡ 0 = ground (arith) in
      let same : d ≡ c = (==_iff d c).0 here in ([], rw (first, same), refl)
  | inr other ↦ elim (Option-cases (find_char c ds)) [
    | inl missing ↦ ground (arith)
    | inr (j, found) ↦
        let (word, split, lacks) = find_char_split c ds j found in
        let later : i ≡ suc j = ground arith in
        let next : suc j + 1 ≡ suc (j + 1) = omega arith in
        (d ∷ word, rw (later, next) (ap (◌∷◌ d) split), rw (other, lacks))
  ]
]

-- The word that is cut off: nothing, or a first word without a space and the space behind it.
abbrev pub CutsWord : Bytes → Bytes → Type 0
CutsWord raw msg = (raw ≡ msg) ⊎ ((word : Bytes) × (raw ≡ word ++ b' ' ∷ msg) × Lacks b' ' word)

after_space-CutsWord : (raw : Bytes) → CutsWord raw (after_space raw)
unfolding after_space
after_space-CutsWord raw = elim (Option-cases (find_char b' ' raw)) [
  | inl missing ↦ rw (missing, after_space) (inl refl)
  | inr (i, found) ↦ rw (found, after_space) (inr (find_char_split b' ' raw i found))
]

-- Whatever the line, push_raw stores all of it, or all but a first word and the space behind it.
classify-CutsWord : (raw : Bytes) → CutsWord raw (classify raw).1
unfolding classify
classify-CutsWord raw = ground (arith, after_space-CutsWord raw)

find_char-append :
    (c : ℕ) (word rest : Bytes) → Lacks c word → find_char c (word ++ c ∷ rest) ≡ some (length word)
unfolding find_char
find_char-append c [] rest h = rw ((==_iff c c).1 refl)
find_char-append c (d ∷ word) rest h = ground (arith, find_char-append c word rest)

after_space-append :
    (word rest : Bytes) → Lacks b' ' word → after_space (word ++ b' ' ∷ rest) ≡ rest
unfolding after_space
after_space-append word rest h =
    let behind : length word + 1 ≡ length (word ++ b' ' ∷ []) =
      sym (length-append word (b' ' ∷ [])) in
    rw (find_char-append b' ' word rest h, after_space, behind)
      (ap (drop (length (word ++ b' ' ∷ []))) (sym (append_assoc word (b' ' ∷ []) rest))
        ∙ drop-append (word ++ b' ' ∷ []) rest)

Lacks-error_tag : (word : Bytes) → Lacks b' ' word → Lacks b' ' (text "ERROR:" ++ word)
unfolding find_char
Lacks-error_tag word h = rw h

-- A first word that touches the level's tag is lost: a line `ERROR:<word> <rest>` is stored as <rest>.
classify_drops_word :
    (word rest : Bytes)
    → Lacks b' ' word
    → classify (text "ERROR:" ++ (word ++ b' ' ∷ rest)) ≡ (text "error", rest)
unfolding classify starts_with
classify_drops_word word rest h =
    ap (λ (msg : Bytes). (text "error", msg))
      (after_space-append (text "ERROR:" ++ word) rest (Lacks-error_tag word h))
