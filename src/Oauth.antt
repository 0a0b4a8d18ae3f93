-- ===== src/Oauth.antt =====
-- The OAuth part of the program (internal/oauth).
pub mod CodeStore
pub mod Replay
pub mod RateLimiter
pub mod Text
pub mod Keyring
pub mod Envelope
pub mod Claims
pub mod Service
pub mod Bootstrap
pub mod Samples
mod Tests
mod TokenTests
mod BootstrapTests
