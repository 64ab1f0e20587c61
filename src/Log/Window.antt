-- ===== src/Log/Window.antt =====
-- What the log keeps: a window on the end of all that was pushed.
use sandobox_cpp.Base.{
  ℕ, suc, ◌+◌, ◌-◌, ◌≤◌, ◌≡◌, refl, sym, ◌∙◌, min, List, [], ◌∷◌, ◌++◌, length, length-append, ltb,
  Bool-cases, inl, inr, ltb→lt, not_ltb→le, last_n, last_n-nil, last_n_all, last_n-snoc, last_n-min,
  length-last_n, arith,
}
use sandobox_cpp.Log.{
  LogEntry, LogAggregator, initial, trim, push_entry, set_max_entries, clear, count,
}

trim-eq-last_n : (max : ℕ) (es : List LogEntry) → trim max es ≡ last_n max es
unfolding trim last_n
trim-eq-last_n max [] = sym (last_n-nil max)
trim-eq-last_n max (e ∷ es) = elim (Bool-cases (ltb max (length (e ∷ es)))) [
  | inl over ↦
      let step : suc (length es) - max ≡ suc (length es - max) =
        omega (arith, ltb→lt max (suc (length es)) over) in
      rw (over, step) (trim-eq-last_n max es)
  | inr fits ↦ rw fits (sym (last_n_all max (e ∷ es) (not_ltb→le max _ fits)))
]

entries-push :
    (e : LogEntry) (l : LogAggregator)
    → (push_entry e l).entries ≡ last_n l.max_entries (l.entries ++ e ∷ [])
unfolding push_entry
entries-push e l = trim-eq-last_n l.max_entries (l.entries ++ e ∷ [])

-- The calls that change the log.
pub data Op : Type 0 where
  pushes : LogEntry → Op
  sets_max : ℕ → Op
  clears : Op

pub step : Op → LogAggregator → LogAggregator
step (pushes e) l = push_entry e l
step (sets_max max) l = set_max_entries max l
step clears l = clear l

pub run : List Op → LogAggregator → LogAggregator
run [] l = l
run (op ∷ ops) l = run ops (step op l)

-- All that was pushed since the log was last cleared, and how much of it is kept under the limits in
-- force at each push.
pub record History : Type 0 where
  pub pushed : List LogEntry
  pub kept : ℕ
  pub limit : ℕ

pub record_op : Op → History → History
record_op (pushes e) h = record h { pushed = h.pushed ++ e ∷ []; kept = min h.limit (h.kept + 1) }
record_op (sets_max max) h = record h { limit = max }
record_op clears h = record h { pushed = []; kept = 0 }

pub record_all : List Op → History → History
record_all [] h = h
record_all (op ∷ ops) h = record_all ops (record_op op h)

-- The log shows a history: its entries are the last ones of it.
pub record Shows (h : History) (l : LogAggregator) : Type 0 where
  pub window : l.entries ≡ last_n h.kept h.pushed
  pub within : h.kept ≤ length h.pushed
  pub limits : l.max_entries ≡ h.limit

push-Shows :
    (e : LogEntry) (h : History) (l : LogAggregator)
    → Shows h l
    → Shows (record_op (pushes e) h) (step (pushes e) l)
unfolding record_op step push_entry
push-Shows e h l s =
    let next : suc h.kept ≡ h.kept + 1 = omega arith in
    record {
      window = entries-push e l ∙ rw (s.limits, s.window, ← last_n-snoc, last_n-min, next);
      within = omega (arith, s.within, length-append {0} h.pushed (e ∷ []));
      limits = s.limits;
    }

step-Shows :
    (op : Op) (h : History) (l : LogAggregator) → Shows h l → Shows (record_op op h) (step op l)
unfolding record_op step set_max_entries clear
step-Shows (pushes e) h l s = push-Shows e h l s
step-Shows (sets_max max) h l s = record { window = s.window; within = s.within; limits = refl }
step-Shows clears h l s = record {
  window = sym (last_n-nil 0);
  within = omega arith;
  limits = s.limits;
}

run-Shows :
    (ops : List Op) (h : History) (l : LogAggregator)
    → Shows h l
    → Shows (record_all ops h) (run ops l)
unfolding run record_all
run-Shows [] h l s = s
run-Shows (op ∷ ops) h l s = run-Shows ops (record_op op h) (step op l) (step-Shows op h l s)

abbrev pub no_history : History
no_history = record { pushed = []; kept = 0; limit = 10000 }

-- After any pushes, changes of the limit and clears, from a new log: the entries are the last ones of
-- what was pushed since the last clear, in their order, and as many as the limits at each push let be
-- kept; count says how many.
pub run_shows_history :
    (ops : List Op)
    → let h = record_all ops no_history in
      ((run ops initial).entries ≡ last_n h.kept h.pushed) × (count (run ops initial) ≡ h.kept)
unfolding count
run_shows_history ops =
    let h = record_all ops no_history in
    let s =
      run-Shows ops no_history initial
        (record { window = sym (last_n-nil 0); within = omega arith; limits = refl }) in
    (s.window, rw s.window (omega (arith, length-last_n h.kept h.pushed, s.within)))

-- A push keeps the newest entries up to the limit, the pushed one last, whatever was in the log; so
-- it also makes good for a limit that was lowered before.
push_bounds :
    (e : LogEntry) (l : LogAggregator)
    → ((push_entry e l).entries ≡ last_n l.max_entries (l.entries ++ e ∷ []))
      × (count (push_entry e l) ≤ l.max_entries)
unfolding count
push_bounds e l = (
  entries-push e l,
  rw entries-push (omega (arith, length-last_n l.max_entries (l.entries ++ e ∷ []))),
)
