-- ===== src/Reality.antt =====
-- Probe defence by a token inside TLS: reality/reality.go.
pub mod Sni
pub mod Peek
pub mod Listener
pub mod Dialer
pub mod Tests
