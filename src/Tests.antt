-- ===== src/Tests.antt =====
-- Concrete runs, by part of the program.
mod Protocol
mod Connect
mod Login
mod Health
mod Lifecycle
mod Sessions
mod Stale
mod Commands
mod Relay
pub mod Arrivals
