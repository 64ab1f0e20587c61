-- ===== src/Health/Tests.antt =====
-- The theorems on the health monitor at concrete inputs.
use sandobox_cpp.Base.{bytes_eq, ◌≡◌, refl, Bytes, [], ◌∷◌, Bool, true, false, not, none, text}
use sandobox_cpp.Health.{
  HealthMonitor, is_healthy, run_checks, monitor_round, is_healthy-run_checks,
}

abbrev two_checks : HealthMonitor
two_checks = record {
  checks = text "db" ∷ text "web" ∷ [];
  statuses = [];
  interval_ms = 5000;
  running = true;
  locked = false;
}

-- only the check of "web" fails
abbrev web_down : Bytes → Bool × Bytes
web_down id = (not (bytes_eq id (text "web")), [])

is_healthy-run_checks_example :
    is_healthy (text "web") (run_checks web_down 7 two_checks.checks two_checks) ≡ false
unfolding bytes_eq
is_healthy-run_checks_example = is_healthy-run_checks web_down 7 (text "web") two_checks

-- The second unlock finds the mutex free.
round_test : monitor_round web_down 7 two_checks ≡ none
unfolding monitor_round bytes_eq
round_test = refl
