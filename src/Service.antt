-- ===== src/Service.antt =====
-- The crate sansrpc-service: requests, streams and oneshots over a connection of messages.
pub mod Messages
pub mod Channels
pub mod Sans
pub mod Session
pub mod Effects
pub mod Correlation
pub mod Distinct
pub mod Once
pub mod Handle
pub mod Answers
pub mod Order
pub mod Reply
pub mod Faults
pub mod Inner
pub mod Runs
pub mod Sources
pub mod Serves
pub mod Yields
pub mod Took
mod InMemory
mod Tests
mod RunTests
mod HandleTests
