-- ===== src/Resource/Readings.antt =====
-- What the readings of /proc come to.
use native.Mathlib.Nat.{div-le_self}
use sandobox_cpp.Base.{
  ℕ, ◌+◌, ◌-◌, ◌/◌, ◌%◌, ◌^◌, ◌≡◌, ◌≢◌, ◌↔◌, refl, ◌∙◌, Bytes, List, [], ◌∷◌, take, ltb, true,
  false, Option, none, some, text, bytes_eq, Bool-cases, inl, inr, arith,
}
use sandobox_cpp.Resource.{
  ResourceLimits, ResourceUsage, ResourceMonitor, no_usage, Proc, status_line, io_line, each_line,
  if_open, cpu_time, cpu_reading, read_usage, exceeds, is_over_limit, violations, get_violations,
}

-- A line's first four bytes are never the eight of `Threads:`.
no_threads_line : (line : Bytes) → bytes_eq (take 4 line) (text "Threads:") ≡ false
unfolding bytes_eq
no_threads_line [] = refl
no_threads_line (a ∷ []) = ground arith
no_threads_line (a ∷ b ∷ []) = ground arith
no_threads_line (a ∷ b ∷ c ∷ []) = ground arith
no_threads_line (a ∷ b ∷ c ∷ d ∷ line) = ground arith

status_line-pids :
    (line : Bytes) (usage : ResourceUsage)
    → (status_line line usage).pids_current ≡ usage.pids_current
unfolding status_line
status_line-pids line usage =
    rw (no_threads_line line) (elim (Bool-cases (bytes_eq (take 6 line) (text "VmRSS:"))) [
      | inl rss ↦ rw rss refl
      | inr other ↦ rw other refl
    ])

io_line-pids :
    (line : Bytes) (usage : ResourceUsage) → (io_line line usage).pids_current ≡ usage.pids_current
unfolding io_line
io_line-pids line usage = ground arith

each_line-pids :
    (f : Bytes → ResourceUsage → ResourceUsage)
    → ((line : Bytes) (usage : ResourceUsage) → (f line usage).pids_current ≡ usage.pids_current)
    → (lines : List Bytes) (usage : ResourceUsage)
    → (each_line f lines usage).pids_current ≡ usage.pids_current
unfolding each_line
each_line-pids f same [] usage = refl
each_line-pids f same (line ∷ lines) usage =
    each_line-pids f same lines (f line usage) ∙ same line usage

if_open-pids :
    {A : Type 0} (f : A → ResourceUsage → ResourceUsage)
    → ((a : A) (usage : ResourceUsage) → (f a usage).pids_current ≡ usage.pids_current)
    → (file : Option A) (usage : ResourceUsage)
    → (if_open f file usage).pids_current ≡ usage.pids_current
if_open-pids f same none usage = refl
if_open-pids f same (some a) usage = same a usage

-- Whatever /proc says, a reading has no processes: pids_current is 0.
pub read_usage-pids :
    (ticks prev : ℕ) (proc : Proc) → (read_usage ticks proc prev).0.pids_current ≡ 0
unfolding read_usage
read_usage-pids ticks prev proc =
    let status =
      if_open-pids (each_line status_line) (each_line-pids status_line status_line-pids) proc.status
        no_usage in
    let disk = if_open-pids (each_line io_line) (each_line-pids io_line io_line-pids) proc.io _ in
    if_open-pids (λ up usage. record usage { uptime_seconds = up }) (λ up usage. refl) proc.uptime _
    ∙ (disk ∙ status)

-- A second reading of the same stat line, with no other reading between, has a share of 0: get_usage,
-- is_over_limit and get_violations all move the mark that the share is counted from.
cpu_reading-again :
    (ticks prev : ℕ) (line : Bytes)
    → cpu_reading ticks (some line) (cpu_reading ticks (some line) prev).1 ≡ (0, cpu_time line)
unfolding cpu_reading
cpu_reading-again ticks prev line =
    let still : (cpu_time line + 2 ^ 64 - cpu_time line) % 2 ^ 64 ≡ 0 = omega arith in
    let nothing : 0 / ticks ≡ 0 = omega (arith, div-le_self 0 ticks) in rw (still) (rw nothing refl)

exceeds-violations :
    (limits : ResourceLimits) (usage : ResourceUsage)
    → ltb limits.pids_max usage.pids_current ≡ false
    → (exceeds limits usage ≡ true) ↔ (violations limits usage ≢ [])
exceeds-violations limits usage none_found =
    elim (Bool-cases (ltb limits.memory_bytes usage.memory_bytes)) [
      | inl more ↦ rw more (ground arith)
      | inr fits ↦ elim (Bool-cases (ltb limits.cpu_percent usage.cpu_percent)) [
        | inl busy ↦ rw (fits, busy) (ground arith)
        | inr idle ↦ rw (fits, idle, none_found) (ground arith)
      ]
    ]

-- With limits and readings as they are, is_over_limit says yes exactly when get_violations has
-- something to tell: neither ever counts processes, which a reading does not find.
is_over_limit-violations :
    (ticks : ℕ) (proc : Proc) (m : ResourceMonitor)
    → ((is_over_limit ticks proc m).0 ≡ true) ↔ ((get_violations ticks proc m).0 ≢ [])
unfolding is_over_limit get_violations
is_over_limit-violations ticks proc m =
    let usage = (read_usage ticks proc m.prev_cpu_time).0 in
    let none_found : ltb m.limits.pids_max usage.pids_current ≡ false =
      rw (read_usage-pids ticks m.prev_cpu_time proc) (ground arith) in
    exceeds-violations m.limits usage none_found
