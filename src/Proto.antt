-- ===== src/Proto.antt =====
-- The crate sansrpc-proto: messages, coders and the connection state that is fed with bytes and
-- items and does no input or output of its own.
pub mod Message
pub mod Encoder
pub mod Words
pub mod Buffer
pub mod Frames
pub mod Wire
pub mod ReadState
pub mod WriteState
pub mod Connection
pub mod Coders
pub mod EndToEnd
pub mod ByteCoder
mod Tests
mod CoderTests
