-- ===== src/Keyi.antt =====
-- keyi-sudo/keyi.c, which runs a command, a shell or an edit as root.
pub mod Env
pub mod EnvLaws
pub mod System
pub mod Edit
pub mod EditLaws
pub mod Run
pub mod Privilege
pub mod Outcome
mod Tests
