-- ===== src/Log/Tests.antt =====
-- The theorems on the log at concrete inputs.
use sandobox_cpp.Base.{◌≡◌, ℕ, Bytes, List, [], ◌∷◌, true, some, text, contains, bytes_eq, last_n}
use sandobox_cpp.Log.{LogEntry, LogAggregator, initial, search, get_by_source, Regex, count}
use sandobox_cpp.Log.Window.{
  Op, pushes, sets_max, clears, run, record_all, no_history, run_shows_history,
}
use sandobox_cpp.Log.Search.{search-eq-last_n}

abbrev line : ℕ → Bytes → LogEntry
line time message = record {
  timestamp_ms = time;
  source = text "web";
  level = text "info";
  message = message;
}

abbrev ops : List Op
ops =
    pushes (line 1 (text "a"))
    ∷ clears
    ∷ pushes (line 2 (text "b"))
    ∷ pushes (line 3 (text "c"))
    ∷ sets_max 1
    ∷ pushes (line 4 (text "d"))
    ∷ []

run_shows_history_example :
    ((run ops initial).entries
      ≡ last_n (record_all ops no_history).kept (record_all ops no_history).pushed)
    × (count (run ops initial) ≡ (record_all ops no_history).kept)
run_shows_history_example = run_shows_history ops

abbrev lowered : LogAggregator
lowered = record { entries = line 1 (text "a") ∷ line 2 (text "b") ∷ []; max_entries = 1 }

search-eq-last_n_example :
    (search (text "b") 1 lowered ≡ line 2 (text "b") ∷ [])
    × (get_by_source (text "web") 1 lowered ≡ line 2 (text "b") ∷ [])
unfolding last_n bytes_eq contains
search-eq-last_n_example = search-eq-last_n (text "b") (text "web") 1 lowered

-- An engine whose only pattern matches every text.
abbrev any_text : Regex
any_text pattern = some λ m. some true
