-- ===== src/Mkdot.antt =====
-- mkdot/mkdot.c, the installer of dotfiles.
pub mod Target
pub mod Renames
pub mod Limits
pub mod Copy
pub mod Install
pub mod Main
pub mod Safety
pub mod Options
mod Tests
