-- ===== src/Net.antt =====
-- crates/lightr-cri-net: the CNI plugin chain.
pub mod Json
pub mod Chain
mod Tests
pub mod Netns
pub mod Probe
pub mod Plugin
