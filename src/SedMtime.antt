-- ===== src/SedMtime.antt =====
-- check-sed-mtime/check_sed_mtime.c, which counts how often sed -i leaves the time of a file as it was.
pub mod Run
pub mod Counts
mod Tests
