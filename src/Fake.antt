-- ===== src/Fake.antt =====
-- crates/lightr-cri-fake/src/lib.rs: the file-backed backend behind the CRI shell.
pub mod Path
pub mod World
pub mod Filter
pub mod Status
pub mod Container
pub mod Sandbox
pub mod Images
pub mod Recovery
pub mod Log
pub mod Stats
pub mod ExecSync
pub mod Streams
pub mod Namespaces
pub mod Cni
pub mod Tests
