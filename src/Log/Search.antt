-- ===== src/Log/Search.antt =====
-- The searches return the newest matches, oldest of them first.
use sandobox_cpp.Base.{
  ℕ, zero, suc, ◌+◌, ◌-◌, ◌≡◌, refl, sym, ap, ◌∙◌, List, [], ◌∷◌, ◌++◌, length, length-append,
  take-nil, drop_all, get_elem?-drop, ltb, Bool, Bool-cases, inl, inr, ltb→lt, not_ltb→le, last_n,
  reverse, reverse-take, reverse-reverse, filter, filter-reverse, take, drop, append_assoc,
  append-nil, arith, some, Option, Bytes, contains, bytes_eq,
}
use sandobox_cpp.Log.{
  LogEntry, LogAggregator, collect, search_by, search, get_by_source, collect_regex, search_regex,
  Regex, copy_from, get_recent,
}

collect-eq-take :
    (test : LogEntry → Bool) (limit : ℕ) (results es : List LogEntry)
    → collect test limit results es ≡ results ++ take (limit - length results) (filter test es)
unfolding collect
collect-eq-take test limit results [] = rw (take-nil, append-nil)
collect-eq-take test limit results (e ∷ es) = elim (Bool-cases (ltb (length results) limit)) [
  | inr full ↦
      let no_room : limit - length results ≡ 0 =
        omega (arith, not_ltb→le (length results) limit full) in
      rw (full, no_room) (sym (append-nil results))
  | inl room ↦ elim (Bool-cases (test e)) [
    | inr miss ↦ rw (room, miss) (collect-eq-take test limit results es)
    | inl hit ↦
        let longer = results ++ e ∷ [] in
        let one_more : limit - length results ≡ suc (limit - length longer) =
          omega (arith, ltb→lt (length results) limit room, length-append {0} results (e ∷ [])) in
        rw (room, hit, one_more)
          (collect-eq-take test limit longer es
            ∙ append_assoc results (e ∷ []) (take (limit - length longer) (filter test es)))
  ]
]

-- A search returns the newest matches up to its limit, oldest of them first.
pub search_by-eq-last_n :
    (test : LogEntry → Bool) (limit : ℕ) (l : LogAggregator)
    → search_by test limit l ≡ last_n limit (filter test l.entries)
unfolding search_by
search_by-eq-last_n test limit l =
    let all_room : limit - 0 ≡ limit = omega arith in
    rw (collect-eq-take, reverse-take, filter-reverse, reverse-reverse, all_room)

-- search returns the newest entries whose message contains the query, and get_by_source the newest of
-- the source, up to the limit, oldest of them first.
pub search-eq-last_n :
    (query source : Bytes) (limit : ℕ) (l : LogAggregator)
    → (search query limit l ≡ last_n limit (filter (λ e. contains query e.message) l.entries))
      × (get_by_source source limit l
          ≡ last_n limit (filter (λ e. bytes_eq e.source source) l.entries))
unfolding search get_by_source
search-eq-last_n query source limit l =
    (search_by-eq-last_n _ limit l, search_by-eq-last_n _ limit l)

collect_regex-eq-collect :
    (re : Bytes → Option Bool) (test : Bytes → Bool)
    → ((m : Bytes) → re m ≡ some (test m))
    → (limit : ℕ) (results es : List LogEntry)
    → collect_regex re limit results es ≡ collect (λ e. test e.message) limit results es
unfolding collect_regex collect
collect_regex-eq-collect re test h limit results [] = refl
collect_regex-eq-collect re test h limit results (e ∷ es) = ground (
  arith,
  h e.message,
  collect_regex-eq-collect re test h limit (results ++ e ∷ []) es,
  collect_regex-eq-collect re test h limit results es,
)

-- With a pattern that compiles, and on which regex_search does not throw, search_regex returns the
-- newest entries whose message matches, up to the limit, oldest of them first.
search_regex-eq-last_n :
    (compile : Regex) (pattern : Bytes) (re : Bytes → Option Bool) (test : Bytes → Bool) (limit : ℕ)
    (l : LogAggregator)
    → compile pattern ≡ some re
    → ((m : Bytes) → re m ≡ some (test m))
    → search_regex compile pattern limit l ≡ last_n limit (filter (λ e. test e.message) l.entries)
unfolding search_regex
search_regex-eq-last_n compile pattern re test limit l good total =
    rw (good, search_regex)
      (ap reverse (collect_regex-eq-collect re test total limit [] (reverse l.entries))
        ∙ (unfold search_by in search_by-eq-last_n (λ e. test e.message) limit l))

copy_from-drop : (es : List LogEntry) (n i : ℕ) → i + n ≡ length es → copy_from es n i ≡ drop i es
unfolding copy_from
copy_from-drop es zero i e = sym (drop_all i es (omega arith))
copy_from-drop es (suc n) i e =
    let (x, got, rest) = get_elem?-drop i es (omega arith) in
    rw (got, copy_from, rest) (ap (◌∷◌ x) (copy_from-drop es n (i + 1) (omega arith)))

-- get_recent returns the last entries, as many as asked for or all there are.
get_recent-eq-last_n : (n : ℕ) (l : LogAggregator) → get_recent n l ≡ last_n n l.entries
unfolding get_recent last_n
get_recent-eq-last_n n l = elim (Bool-cases (ltb n (length l.entries))) [
  | inl more ↦
      rw more (copy_from-drop l.entries _ _ (omega (arith, ltb→lt n (length l.entries) more)))
  | inr all ↦
      let whole : length l.entries - n ≡ 0 = omega (arith, not_ltb→le n (length l.entries) all) in
      rw all (rw whole (copy_from-drop l.entries _ 0 (omega arith)))
]
