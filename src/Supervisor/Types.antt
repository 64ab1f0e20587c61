-- ===== src/Supervisor/Types.antt =====
-- The data of process_supervisor.hpp.
use sandobox_cpp.Base.{ℕ, ℤ, negsuc, Bytes, List, [], Bool, false, Assoc}

pub data RestartPolicy : Type 0 where
  never on_failure always : RestartPolicy

pub record ProcessConfig : Type 0 where
  pub name : Bytes
  pub command : Bytes
  pub args : List Bytes
  pub working_dir : Bytes
  pub environment : Assoc Bytes
  pub restart_policy : RestartPolicy
  pub max_restarts : ℕ
  pub restart_delay_ms : ℕ
  pub memory_limit_bytes : ℕ
  pub cpu_percent : ℕ
  pub timeout_seconds : ℕ
  pub enable_health_check : Bool
  pub health_check_interval_ms : ℕ
  pub health_check_command : Bytes

pub data Status : Type 0 where
  stopped starting running restarting failed : Status

pub record ProcessState : Type 0 where
  pub status : Status
  pub pid : ℤ
  pub exit_code : ℕ
  pub start_time : ℕ
  pub restart_count : ℕ
  pub last_error : Bytes
  pub cpu_time_ms : ℕ
  pub memory_bytes : ℕ

-- the members' initial values
abbrev pub initial_state : ProcessState
initial_state = record {
  status = stopped;
  pid = negsuc 0;
  exit_code = 0;
  start_time = 0;
  restart_count = 0;
  last_error = [];
  cpu_time_ms = 0;
  memory_bytes = 0;
}

pub data EventType : Type 0 where
  started stopped crashed restarted health_check_failed : EventType

pub record ProcessEvent : Type 0 where
  pub type : EventType
  pub process_name : Bytes
  pub pid : ℤ
  pub exit_code : ℕ
  pub timestamp : ℕ
  pub message : Bytes

-- monitor_thread: not joinable; running its loop; returned from it, and still joinable.
pub data Monitor : Type 0 where
  absent looping returned : Monitor

pub record ProcessEntry : Type 0 where
  pub config : ProcessConfig
  pub state : ProcessState
  pub monitor : Monitor
  pub running : Bool
  pub logs : List Bytes

pub data Signal : Type 0 where
  sigterm sigkill : Signal

-- The supervisor. `locked` is processes_mutex_ as held by the calling thread; `emitted` is what the
-- callback has been given and `signals` are the calls of kill, newest last.
pub record Supervisor : Type 0 where
  pub processes : Assoc ProcessEntry
  pub locked : Bool
  pub has_callback : Bool
  pub watchdog_running : Bool
  pub emitted : List ProcessEvent
  pub signals : List (ℤ × Signal)

abbrev pub initial : Supervisor
initial = record {
  processes = [];
  locked = false;
  has_callback = false;
  watchdog_running = false;
  emitted = [];
  signals = [];
}
