-- ===== src/Applets.antt =====
-- check-my-alsa/main.c, app-common.c, app-xrun.c and app-jack.c: the applets, their options, which
-- of them runs, and the runs of two.
pub mod Registry
pub mod Order
pub mod Options
pub mod Dispatch
pub mod Lookup
pub mod Bounds
pub mod Xrun
pub mod Tally
pub mod Status
pub mod Course
pub mod Jack
pub mod Chosen
pub mod Plugged
pub mod Lines
pub mod Refreshed
pub mod Current
pub mod Printed
mod Tests
mod JackTests
