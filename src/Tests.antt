-- ===== src/Tests.antt =====
-- The theorems at concrete inputs.
mod Fixtures
mod Signals
mod Bridges
mod Api
mod Broadcast
mod Sender
mod Sharing
mod Startup
mod Maps
mod Metrics
mod Sessions
