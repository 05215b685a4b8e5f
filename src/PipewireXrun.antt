-- ===== src/PipewireXrun.antt =====
-- pipewire-xrun/main.c, which counts late callbacks of a PipeWire stream.
pub mod Config
pub mod Powers
pub mod Stats
pub mod Counts
pub mod Percentiles
pub mod Process
pub mod Fits
pub mod Bench
pub mod Outcome
mod Tests
