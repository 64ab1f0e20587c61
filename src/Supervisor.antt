-- ===== src/Supervisor.antt =====
-- sandbox/src/process_supervisor.cpp and its header: the supervisor of child processes.
pub mod Types
pub mod Act
pub mod Rules
pub mod Invariant
pub mod Process
pub mod Child
pub mod Control
pub mod Watchdog
pub mod Race
pub mod Keeps
pub mod Rounds
pub mod Reach
pub mod Restarts
pub mod Removal
pub mod Shutdown
pub mod Stops
mod Tests
