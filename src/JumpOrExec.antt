-- ===== src/JumpOrExec.antt =====
-- jump-or-exec/jump-or-exec.c, which focuses a window or starts a program.
pub mod Windows
pub mod Main
pub mod Select
pub mod Jumps
mod Tests
