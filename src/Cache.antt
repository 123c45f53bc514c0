-- ===== src/Cache.antt =====
-- crates/krit-cache: the bounded process-local cache. One call holds the lock throughout, so a call
-- is a function from the state to its answer and the new state.
pub mod Map
pub mod Text
pub mod Config
pub mod Namespace
pub mod State
pub mod Read
pub mod Write
pub mod Tidy
pub mod Sound
pub mod RoundTrip
pub mod Start
pub mod Accepting
pub mod Settings
pub mod Reachable
