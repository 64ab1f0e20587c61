-- ===== src/Health.antt =====
-- sandbox/src/health_monitor.cpp: the registered checks and their last results. What each check
-- answers in a round is an argument; the mutex is a flag, and `none` is an unlock of a mutex that is
-- not held, which is undefined behaviour.
mod Tests
use sandobox_cpp.Base.{
  ◌≡◌, refl, ap, ◌∙◌, ℕ, suc, ◌+◌, Bytes, List, [], ◌∷◌, Bool, true, false, not, ◌||◌, Option, none,
  some, Option-cases, Bool-cases, inl, inr, Assoc, lookup, insert, lookup-insert, bytes_eq,
  bytes_eq_iff, text, if◌then◌else◌, map, arith,
}

pub record HealthStatus : Type 0 where
  pub id : Bytes
  pub healthy : Bool
  pub message : Bytes
  pub last_check : ℕ

-- `checks` are the ids of checks_.
pub record HealthMonitor : Type 0 where
  pub checks : List Bytes
  pub statuses : Assoc HealthStatus
  pub interval_ms : ℕ
  pub running : Bool
  pub locked : Bool

abbrev pub member : Bytes → List Bytes → Bool
member id [] = false
member id (j ∷ ids) = bytes_eq j id || member id ids

unfoldable pub register_check : Bytes → ℕ → HealthMonitor → HealthMonitor
register_check id now h = record h {
  checks = if member id h.checks then h.checks else id ∷ h.checks;
  statuses =
      insert id (record { id = id; healthy = true; message = text "pending"; last_check = now })
        h.statuses;
}

abbrev pub set_interval_ms : ℕ → HealthMonitor → HealthMonitor
set_interval_ms ms h = record h { interval_ms = ms }

abbrev pub start : HealthMonitor → HealthMonitor
start h = if h.running then h else record h { running = true }

abbrev pub stop : HealthMonitor → HealthMonitor
stop h = record h { running = false }

unfoldable pub get_all : HealthMonitor → List HealthStatus
get_all h = map (λ (id, status). status) h.statuses

abbrev pub healthy_of : Option HealthStatus → Bool
healthy_of none = false
healthy_of (some status) = status.healthy

unfoldable pub is_healthy : Bytes → HealthMonitor → Bool
is_healthy id h = healthy_of (lookup id h.statuses)

unfoldable pub count_unhealthy : Assoc HealthStatus → ℕ
count_unhealthy [] = 0
count_unhealthy ((id, status) ∷ rest) =
    if not status.healthy then suc (count_unhealthy rest) else count_unhealthy rest

unfoldable pub unhealthy_count : HealthMonitor → ℕ
unfolding count_unhealthy
unhealthy_count h = count_unhealthy h.statuses

abbrev pub message_of : Bool → Bytes → Bytes
message_of healthy [] = if healthy then text "ok" else text "unhealthy"
message_of healthy (c ∷ msg) = c ∷ msg

-- the loop over the checks
unfoldable pub run_checks : (Bytes → Bool × Bytes) → ℕ → List Bytes → HealthMonitor → HealthMonitor
run_checks answer now [] h = h
run_checks answer now (id ∷ ids) h =
    let (healthy, msg) = answer id in
    run_checks answer now ids (record h {
      statuses =
          insert id
            (record {
              id = id;
              healthy = healthy;
              message = message_of healthy msg;
              last_check = now;
            })
            h.statuses;
    })

unfoldable pub unlock : HealthMonitor → Option HealthMonitor
unlock h = if h.locked then some (record h { locked = false }) else none

-- The explicit call of the destructor, and the end of the block.
unfoldable pub unlock_twice : HealthMonitor → Option HealthMonitor
unfolding unlock
unlock_twice h = elim (unlock h) [ none ↦ none | some freed ↦ unlock freed ]

-- A round of monitor_loop on a free mutex.
unfoldable pub monitor_round : (Bytes → Bool × Bytes) → ℕ → HealthMonitor → Option HealthMonitor
unfolding unlock_twice run_checks
monitor_round answer now h =
    unlock_twice (run_checks answer now h.checks (record h { locked = true }))

healthy_of-if :
    (b : Bool) (status : HealthStatus) (o : Option HealthStatus)
    → healthy_of (if b then some status else o) ≡ (if b then status.healthy else healthy_of o)
healthy_of-if true status o = refl
healthy_of-if false status o = refl

is_healthy-insert :
    (j id : Bytes) (status : HealthStatus) (h : HealthMonitor)
    → is_healthy j (record h { statuses = insert id status h.statuses })
      ≡ (if bytes_eq id j then status.healthy else is_healthy j h)
unfolding is_healthy
is_healthy-insert j id status h =
    ap healthy_of (lookup-insert id j status h.statuses)
    ∙ healthy_of-if (bytes_eq id j) status (lookup j h.statuses)

run_checks_others :
    (answer : Bytes → Bool × Bytes) (now : ℕ) (j : Bytes) (ids : List Bytes) (h : HealthMonitor)
    → is_healthy j (run_checks answer now ids h)
      ≡ (if member j ids then (answer j).0 else is_healthy j h)
unfolding run_checks
run_checks_others answer now j [] h = refl
run_checks_others answer now j (id ∷ ids) h =
    let status : HealthStatus = record {
      id = id;
      healthy = (answer id).0;
      message = message_of (answer id).0 (answer id).1;
      last_check = now;
    } in
    run_checks_others answer now j ids (record h { statuses = insert id status h.statuses })
    ∙ (rw (is_healthy-insert j id status h) (elim (Bool-cases (bytes_eq id j)) [
      | inl same ↦ let eq : id ≡ j = (bytes_eq_iff id j).0 same in rw (same, eq) (ground arith)
      | inr other ↦ rw other refl
    ]))

-- After the checks of a round, a registered id is healthy exactly if its check said so, and any other
-- id is as healthy as before.
pub is_healthy-run_checks :
    (answer : Bytes → Bool × Bytes) (now : ℕ) (j : Bytes) (h : HealthMonitor)
    → is_healthy j (run_checks answer now h.checks h)
      ≡ (if member j h.checks then (answer j).0 else is_healthy j h)
is_healthy-run_checks answer now j h = run_checks_others answer now j h.checks h
