-- ===== src/Xreality.antt =====
-- Probe defence inside the ClientHello: the package xreality.
pub mod Parse
pub mod Crypto
pub mod Auth
pub mod Server
pub mod Peek
pub mod Channel
pub mod Listener
pub mod Client
pub mod Tests
