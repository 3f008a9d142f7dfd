-- ===== src/Stream.antt =====
-- crates/lightr-cri-stream: the streaming server's wire formats, token registry and base64.
pub mod B64
pub mod Channel
pub mod Token
pub mod Negotiate
pub mod Status
pub mod Spdy
pub mod Ws
pub mod Server
pub mod PortForward
mod Tests
