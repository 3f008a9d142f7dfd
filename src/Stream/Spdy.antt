-- ===== src/Stream/Spdy.antt =====
-- crates/lightr-cri-stream/src/spdy: SPDY/3.1 frames, header blocks, the connection's frame reader.
pub mod Frame
pub mod Reader
pub mod Headers
pub mod Exec
pub mod Output
pub mod Begin
pub mod Zlib
pub mod PortForward
mod Tests
