-- ===== src/PulseMonitor.antt =====
-- pulse-monitor/main.c, which prints the events of a PulseAudio server.
pub mod Queue
pub mod Linked
pub mod Loop
pub mod Arrivals
pub mod Fifo
pub mod Kept
pub mod Safety
pub mod Alive
pub mod Calls
pub mod Query
pub mod Output
pub mod Lines
pub mod Results
pub mod Prints
pub mod Main
pub mod Told
pub mod Waits
pub mod Ready
mod Tests
