-- ===== src/AlsaPcm.antt =====
-- check-my-alsa/alsa-pcm.c, alsa-pcm.h, spa-dll.h and alsa-pcm-sink.c: the playback stream.
pub mod Doubles
pub mod State
pub mod Programs
pub mod Setup
pub mod Stream
pub mod Clock
pub mod Cycle
pub mod Init
pub mod Recovery
pub mod Room
pub mod Timing
pub mod Quiet
pub mod Life
pub mod LifeSteps
pub mod Format
pub mod Reach
pub mod Frames
mod Tests
