-- ===== src/Tests.antt =====
-- The theorems at concrete inputs.
pub mod World
pub mod Files
pub mod Texts
pub mod Packets
pub mod Sessions
pub mod Requests
pub mod Sounds
pub mod Sources
pub mod Reactors
pub mod Running
