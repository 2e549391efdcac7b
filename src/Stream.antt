-- ===== src/Stream.antt =====
-- src/message_stream: the byte stream of a connection and the messages that it carries.
pub mod Header
pub mod Split
pub mod Machine
pub mod Agree
pub mod Bodies
pub mod Heads
pub mod Refine
pub mod Chunks
pub mod Frames
pub mod Hostile
pub mod Flow
pub mod Sending
mod Tests
