-- ===== src/Log.antt =====
-- sandbox/src/log_aggregator.cpp: the bounded log. The deque is a list, oldest entry first; the clock
-- and std::regex are arguments. The mutex makes each call one step.
pub mod Window
pub mod Search
pub mod Lines
mod Tests
use sandobox_cpp.Base.{
  ℕ, zero, suc, ◌+◌, ◌-◌, Bytes, List, [], ◌∷◌, ◌++◌, reverse, length, get_elem?, drop, ltb, Bool,
  true, false, ◌||◌, Option, none, some, if◌then◌else◌, text, starts_with, contains, find_char,
  bytes_eq,
}

pub record LogEntry : Type 0 where
  pub timestamp_ms : ℕ
  pub source : Bytes
  pub level : Bytes
  pub message : Bytes

pub record LogAggregator : Type 0 where
  pub entries : List LogEntry
  pub max_entries : ℕ

-- the members' initial values
abbrev pub initial : LogAggregator
initial = record { entries = []; max_entries = 10000 }

-- while (entries_.size() > max_entries_) entries_.pop_front();
unfoldable pub trim : ℕ → List LogEntry → List LogEntry
trim max [] = []
trim max (e ∷ es) = if ltb max (length (e ∷ es)) then trim max es else e ∷ es

unfoldable pub push_entry : LogEntry → LogAggregator → LogAggregator
unfolding trim
push_entry e l = record l { entries = trim l.max_entries (l.entries ++ e ∷ []) }

unfoldable pub push : ℕ → Bytes → Bytes → Bytes → LogAggregator → LogAggregator
unfolding push_entry
push now source level message =
    push_entry (record { timestamp_ms = now; source = source; level = level; message = message })

-- raw_line.substr(raw_line.find(' ') + 1), where npos + 1 is 0
unfoldable pub after_space : Bytes → Bytes
after_space raw = elim (find_char b' ' raw) [ none ↦ raw | some i ↦ drop (i + 1) raw ]

-- level and msg of push_raw
unfoldable pub classify : Bytes → Bytes × Bytes
unfolding after_space
classify raw =
    if starts_with (text "[ERROR]") raw || starts_with (text "ERROR:") raw
    then (text "error", after_space raw)
    else if starts_with (text "[WARN]") raw || starts_with (text "WARN:") raw
    then (text "warn", after_space raw)
    else if starts_with (text "[DEBUG]") raw || starts_with (text "DEBUG:") raw
    then (text "debug", after_space raw)
    else (text "info", raw)

unfoldable pub push_raw : ℕ → Bytes → Bytes → LogAggregator → LogAggregator
unfolding push classify
push_raw now source raw = let (level, msg) = classify raw in push now source level msg

-- for (it = rbegin; it != rend && results.size() < limit; ++it) if (test(*it)) results.push_back(*it);
unfoldable pub collect : (LogEntry → Bool) → ℕ → List LogEntry → List LogEntry → List LogEntry
collect test limit results [] = results
collect test limit results (e ∷ es) =
    let rest = collect test limit (if test e then results ++ e ∷ [] else results) es in
    if ltb (length results) limit then rest else results

unfoldable pub search_by : (LogEntry → Bool) → ℕ → LogAggregator → List LogEntry
unfolding collect
search_by test limit l = reverse (collect test limit [] (reverse l.entries))

unfoldable pub search : Bytes → ℕ → LogAggregator → List LogEntry
unfolding search_by
search query = search_by (λ e. contains query e.message)

unfoldable pub get_by_source : Bytes → ℕ → LogAggregator → List LogEntry
unfolding search_by
get_by_source source = search_by (λ e. bytes_eq e.source source)

-- std::regex: a compiled pattern, or none for an exception; regex_search on a text, or none for one.
abbrev pub Regex : Type 0
Regex = Bytes → Option (Bytes → Option Bool)

-- The loop of search_regex. An exception ends it, with the results that it has so far.
unfoldable pub collect_regex :
    (Bytes → Option Bool) → ℕ → List LogEntry → List LogEntry → List LogEntry
collect_regex re limit results [] = results
collect_regex re limit results (e ∷ es) =
    let found = collect_regex re limit (results ++ e ∷ []) es in
    let passed = collect_regex re limit results es in
    if ltb (length results) limit
    then elim (re e.message) [ none ↦ results | some true ↦ found | some false ↦ passed ]
    else results

unfoldable pub search_regex : Regex → Bytes → ℕ → LogAggregator → List LogEntry
unfolding collect_regex
search_regex compile pattern limit l = elim (compile pattern) [
  | none ↦ []
  | some re ↦ reverse (collect_regex re limit [] (reverse l.entries))
]

-- for (size_t i = start; i < entries_.size(); i++) results.push_back(entries_[i]);
unfoldable pub copy_from : List LogEntry → ℕ → ℕ → List LogEntry
copy_from entries zero i = []
copy_from entries (suc rounds) i = elim (get_elem? entries i) [
  | none ↦ []
  | some e ↦ e ∷ copy_from entries rounds (i + 1)
]

unfoldable pub get_recent : ℕ → LogAggregator → List LogEntry
unfolding copy_from
get_recent count l =
    let size = length l.entries in
    let start = if ltb count size then size - count else 0 in
    copy_from l.entries (size - start) start

unfoldable pub set_max_entries : ℕ → LogAggregator → LogAggregator
set_max_entries max l = record l { max_entries = max }

unfoldable pub count : LogAggregator → ℕ
count l = length l.entries

unfoldable pub clear : LogAggregator → LogAggregator
clear l = record l { entries = [] }
