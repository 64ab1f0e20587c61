-- ===== src/Resource.antt =====
-- sandbox/src/resource_monitor.cpp, class ResourceMonitor: what it reads of /proc, its history, its
-- limits and its alerts. The files of /proc, the clock and the comparison of doubles are arguments.
pub mod Scan
pub mod Readings
pub mod Loop
pub mod History
pub mod Alerts
pub mod Manager
mod Tests
use sandobox_cpp.Base.{
  ℕ, zero, suc, ◌+◌, ◌-◌, ◌*◌, ◌/◌, ◌%◌, ◌^◌, Bytes, List, [], ◌∷◌, ◌++◌, length, get_elem?, take,
  drop, ltb, Bool, true, false, not, ◌||◌, Option, none, some, if◌then◌else◌, text, bytes_eq,
}
use sandobox_cpp.Resource.Scan.{read_into, extract, skip_tokens}

pub record ResourceLimits : Type 0 where
  pub memory_bytes : ℕ
  pub cpu_percent : ℕ
  pub pids_max : ℕ
  pub disk_bytes : ℕ
  pub network_rx_bps : ℕ
  pub network_tx_bps : ℕ

-- uptime_seconds is the bit pattern of the double.
pub record ResourceUsage : Type 0 where
  pub memory_bytes : ℕ
  pub cpu_percent : ℕ
  pub pids_current : ℕ
  pub disk_read_bytes : ℕ
  pub disk_write_bytes : ℕ
  pub network_rx_bytes : ℕ
  pub network_tx_bytes : ℕ
  pub uptime_seconds : ℕ

abbrev pub no_usage : ResourceUsage
no_usage = record {
  memory_bytes = 0;
  cpu_percent = 0;
  pids_current = 0;
  disk_read_bytes = 0;
  disk_write_bytes = 0;
  network_rx_bytes = 0;
  network_tx_bytes = 0;
  uptime_seconds = 0;
}

-- The files, where they can be opened: the lines of status, the first line of stat, the lines of io,
-- and the double at the front of uptime.
pub record Proc : Type 0 where
  pub status : Option (List Bytes)
  pub stat : Option Bytes
  pub io : Option (List Bytes)
  pub uptime : Option ℕ

unfoldable pub status_line : Bytes → ResourceUsage → ResourceUsage
unfolding read_into
status_line line usage =
    if bytes_eq (take 6 line) (text "VmRSS:")
    then record usage {
      memory_bytes = read_into 64 usage.memory_bytes (drop 6 line) * 1024 % 2 ^ 64;
    }
    else if bytes_eq (take 4 line) (text "Threads:")
    then record usage { pids_current = read_into 32 usage.pids_current (drop 4 line) }
    else usage

unfoldable pub io_line : Bytes → ResourceUsage → ResourceUsage
unfolding read_into
io_line line usage =
    if bytes_eq (take 11 line) (text "read_bytes:")
    then record usage { disk_read_bytes = read_into 64 usage.disk_read_bytes (drop 11 line) }
    else if bytes_eq (take 12 line) (text "write_bytes:")
    then record usage { disk_write_bytes = read_into 64 usage.disk_write_bytes (drop 12 line) }
    else usage

unfoldable pub each_line :
    (Bytes → ResourceUsage → ResourceUsage) → List Bytes → ResourceUsage → ResourceUsage
each_line f [] usage = usage
each_line f (line ∷ lines) usage = each_line f lines (f line usage)

abbrev pub if_open :
    {A : Type 0} → (A → ResourceUsage → ResourceUsage) → Option A → ResourceUsage → ResourceUsage
if_open f none usage = usage
if_open f (some a) usage = f a usage

-- utime + stime
unfoldable pub cpu_time : Bytes → ℕ
cpu_time line =
    let (utime, rest) = extract 64 (skip_tokens 13 line) in
    (utime + (elim rest [ none ↦ 0 | some after ↦ (extract 64 after).0 ])) % 2 ^ 64

-- The share since the reading before, and prev_cpu_time_.
unfoldable pub cpu_reading : ℕ → Option Bytes → ℕ → ℕ × ℕ
unfolding cpu_time
cpu_reading ticks none prev = (0, prev)
cpu_reading ticks (some line) prev =
    let total = cpu_time line in
    let delta = (total + 2 ^ 64 - prev) % 2 ^ 64 in (delta * 100 % 2 ^ 64 / ticks % 2 ^ 32, total)

-- read_usage, where `ticks` is sysconf(_SC_CLK_TCK) and `prev` is prev_cpu_time_.
unfoldable pub read_usage : ℕ → Proc → ℕ → ResourceUsage × ℕ
unfolding each_line status_line io_line cpu_reading
read_usage ticks proc prev =
    let memory = if_open (each_line status_line) proc.status no_usage in
    let (share, total) = cpu_reading ticks proc.stat prev in
    let disk = if_open (each_line io_line) proc.io (record memory { cpu_percent = share }) in
    (
      if_open (λ up usage. record usage { uptime_seconds = up }) proc.uptime
          (record disk { network_rx_bytes = 0; network_tx_bytes = 0 }),
      total,
    )

pub data Level : Type 0 where
  info warning critical : Level

-- The values are the numbers that the program converts to doubles.
pub record ResourceAlert : Type 0 where
  pub level : Level
  pub resource : Bytes
  pub message : Bytes
  pub current_value : ℕ
  pub limit_value : ℕ
  pub timestamp : ℕ

pub record HistoryEntry : Type 0 where
  pub usage : ResourceUsage
  pub timestamp : ℕ

pub record ResourceMonitor : Type 0 where
  pub limits : ResourceLimits
  pub running : Bool
  pub history : List HistoryEntry
  pub has_callback : Bool
  pub emitted : List ResourceAlert
  pub prev_cpu_time : ℕ

-- the constructor
abbrev pub fresh_monitor : ResourceLimits → ResourceMonitor
fresh_monitor limits = record {
  limits = limits;
  running = false;
  history = [];
  has_callback = false;
  emitted = [];
  prev_cpu_time = 0;
}

unfoldable pub start : ResourceMonitor → Bool × ResourceMonitor
start m = if m.running then (false, m) else (true, record m { running = true })

unfoldable pub stop : ResourceMonitor → Bool × ResourceMonitor
stop m = if not m.running then (true, m) else (true, record m { running = false })

abbrev pub on_alert : ResourceMonitor → ResourceMonitor
on_alert m = record m { has_callback = true }

-- history_.push_back(...); if (history_.size() > 1000) history_.erase(history_.begin());
unfoldable pub remember : HistoryEntry → List HistoryEntry → List HistoryEntry
remember e history =
    let longer = history ++ e ∷ [] in if ltb 1000 (length longer) then drop 1 longer else longer

unfoldable pub copy_history : List HistoryEntry → ℕ → ℕ → List HistoryEntry
copy_history history zero i = []
copy_history history (suc rounds) i = elim (get_elem? history i) [
  | none ↦ []
  | some e ↦ e ∷ copy_history history rounds (i + 1)
]

unfoldable pub get_history : ℕ → ResourceMonitor → List HistoryEntry
unfolding copy_history
get_history last m =
    let size = length m.history in
    let start = if ltb last size then size - last else 0 in
    copy_history m.history (size - start) start

abbrev pub exceeds : ResourceLimits → ResourceUsage → Bool
exceeds limits usage =
    ltb limits.memory_bytes usage.memory_bytes
    || ltb limits.cpu_percent usage.cpu_percent
    || ltb limits.pids_max usage.pids_current

unfoldable pub is_over_limit : ℕ → Proc → ResourceMonitor → Bool × ResourceMonitor
is_over_limit ticks proc m =
    let (usage, total) = read_usage ticks proc m.prev_cpu_time in
    (exceeds m.limits usage, record m { prev_cpu_time = total })

abbrev pub violation_if : Bool → Level → Bytes → Bytes → ℕ → ℕ → List ResourceAlert
violation_if false level resource message current limit = []
violation_if true level resource message current limit =
    record {
      level = level;
      resource = resource;
      message = message;
      current_value = current;
      limit_value = limit;
      timestamp = 0;
    }
    ∷ []

abbrev pub violations : ResourceLimits → ResourceUsage → List ResourceAlert
violations limits usage =
    violation_if (ltb limits.memory_bytes usage.memory_bytes) critical (text "memory")
      (text "Memory limit exceeded") usage.memory_bytes limits.memory_bytes
    ++ violation_if (ltb limits.cpu_percent usage.cpu_percent) warning (text "cpu")
        (text "CPU limit exceeded") usage.cpu_percent limits.cpu_percent

unfoldable pub get_violations : ℕ → Proc → ResourceMonitor → List ResourceAlert × ResourceMonitor
get_violations ticks proc m =
    let (usage, total) = read_usage ticks proc m.prev_cpu_time in
    (violations m.limits usage, record m { prev_cpu_time = total })

unfoldable pub get_usage : ℕ → Proc → ResourceMonitor → ResourceUsage × ResourceMonitor
get_usage ticks proc m =
    let (usage, total) = read_usage ticks proc m.prev_cpu_time in
    (usage, record m { prev_cpu_time = total })

unfoldable pub set_limit : ResourceLimits → ResourceMonitor → ResourceMonitor
set_limit limits m = record m { limits = limits }
