-- ===== src/Resource/Alerts.antt =====
-- The alerts of sandbox/src/resource_monitor.cpp in a list, and what they tell.
pub mod Raised
use sandobox_cpp.Base.{
  ℕ, ◌<◌, ◌≤◌, ◌≡◌, refl, sym, ap, ◌∙◌, Bytes, List, [], ◌∷◌, ◌++◌, length, map, filter,
  filter-append, length-append, append_assoc, append-nil, ltb, ltb→lt, Bool, true, false, text,
  if◌then◌else◌, arith,
}
use sandobox_cpp.Resource.{
  ResourceLimits, ResourceUsage, ResourceAlert, ResourceMonitor, violation_if, Level, critical,
  warning, read_usage, remember, violations,
}
use sandobox_cpp.Resource.Readings.{read_usage-pids}
use sandobox_cpp.Resource.Loop.{Round, emit_alert, check_alerts, monitor_round}

-- What an alert and a violation share: their words differ, and a violation has no time.
abbrev pub gist : ResourceAlert → Level × Bytes × ℕ × ℕ
gist alert = (alert.level, alert.resource, alert.current_value, alert.limit_value)

-- The value is over its limit.
abbrev pub is_over : ResourceAlert → Bool
is_over alert = ltb alert.limit_value alert.current_value

abbrev pub alert_if : Bool → ℕ → Level → Bytes → Bytes → ℕ → ℕ → List ResourceAlert
alert_if false now level resource message current limit = []
alert_if true now level resource message current limit =
    record {
      level = level;
      resource = resource;
      message = message;
      current_value = current;
      limit_value = limit;
      timestamp = now;
    }
    ∷ []

pub emit_alert-if :
    (due : Bool) (now : ℕ) (level : Level) (resource message : Bytes) (current limit : ℕ)
    (m : ResourceMonitor)
    → m.has_callback ≡ true
    → (if due then emit_alert now level resource message current limit m else m)
      ≡ record m { emitted = m.emitted ++ alert_if due now level resource message current limit }
emit_alert-if true now level resource message current limit m called = rw called refl
emit_alert-if false now level resource message current limit m called =
    ap (λ sent. record m { emitted = sent }) (sym (append-nil m.emitted))

pub map-append :
    {A B : Type 0} (f : A → B) (xs ys : List A) → map f (xs ++ ys) ≡ map f xs ++ map f ys
map-append f [] ys = refl
map-append f (x ∷ xs) ys = ap (λ zs. f x ∷ zs) (map-append f xs ys)

-- The alerts that are over their limit, and what they tell.
abbrev pub tell : List ResourceAlert → List (Level × Bytes × ℕ × ℕ)
tell alerts = map gist (filter is_over alerts)

pub tell-append : (xs ys : List ResourceAlert) → tell (xs ++ ys) ≡ tell xs ++ tell ys
tell-append xs ys =
    rw (filter-append is_over xs ys) (map-append gist (filter is_over xs) (filter is_over ys))

tell-single :
    (b : Bool) (alert : ResourceAlert)
    → is_over alert ≡ b
    → tell (alert ∷ []) ≡ (if b then gist alert ∷ [] else [])
tell-single true alert e = rw e refl
tell-single false alert e = rw e refl

gist-violation_if :
    (b : Bool) (level : Level) (resource message : Bytes) (current limit : ℕ)
    → map gist (violation_if b level resource message current limit)
      ≡ (if b then (level, resource, current, limit) ∷ [] else [])
gist-violation_if true level resource message current limit = refl
gist-violation_if false level resource message current limit = refl

-- An alert that is due whenever its value is over its limit tells of that.
pub tell-alert_if :
    (due : Bool) (now : ℕ) (level : Level) (resource message word : Bytes) (current limit : ℕ)
    → (ltb limit current ≡ true → due ≡ true)
    → tell (alert_if due now level resource message current limit)
      ≡ map gist (violation_if (ltb limit current) level resource word current limit)
tell-alert_if true now level resource message word current limit sound =
    tell-single (ltb limit current) _ refl
    ∙ sym (gist-violation_if (ltb limit current) level resource word current limit)
tell-alert_if false now level resource message word current limit sound =
    let fits : ltb limit current ≡ false = ground (arith, sound) in rw fits refl

tell-alert_within :
    (due : Bool) (now : ℕ) (level : Level) (resource message : Bytes) (current limit : ℕ)
    → ltb limit current ≡ false
    → tell (alert_if due now level resource message current limit) ≡ []
tell-alert_within true now level resource message current limit fits = tell-single false _ fits
tell-alert_within false now level resource message current limit fits = refl

pub tell-memory :
    (far high : Bool) (now : ℕ) (first second word : Bytes) (current limit : ℕ)
    → (ltb limit current ≡ true → far ≡ true)
    → tell (
        if far
        then alert_if true now critical (text "memory") first current limit
        else alert_if high now warning (text "memory") second current limit)
      ≡ map gist (violation_if (ltb limit current) critical (text "memory") word current limit)
tell-memory true high now first second word current limit sound =
    tell-alert_if true now critical (text "memory") first word current limit sound
tell-memory false high now first second word current limit sound =
    let fits : ltb limit current ≡ false = ground (arith, sound) in
    tell-alert_within high now warning (text "memory") second current limit fits ∙ rw fits refl

pub length-alert_if :
    (due : Bool) (now : ℕ) (level : Level) (resource message : Bytes) (current limit : ℕ)
    → length (alert_if due now level resource message current limit) ≤ 1
length-alert_if true now level resource message current limit = omega arith
length-alert_if false now level resource message current limit = omega arith

pub length-memory :
    (far high : Bool) (now : ℕ) (first second : Bytes) (current limit : ℕ)
    → length (
        if far
        then alert_if true now critical (text "memory") first current limit
        else alert_if high now warning (text "memory") second current limit)
      ≤ 1
length-memory true high now first second current limit = omega arith
length-memory false high now first second current limit =
    length-alert_if high now warning (text "memory") second current limit
