-- ===== src/Bridge.antt =====
-- bridge/src: the program around the voice task.
pub mod Stats
pub mod Provision
pub mod Audio
pub mod Rptc
pub mod Config
