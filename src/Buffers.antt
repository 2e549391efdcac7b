-- ===== src/Buffers.antt =====
-- src/buffer/buffer.cpp: the buffers that a message is written into and read from, as lists of
-- blocks with their bytes.
pub mod Write
pub mod Read
pub mod Splice
pub mod SetData
pub mod Blocks
pub mod Reserve
pub mod Append
pub mod Cursor
pub mod Message
pub mod Sent
pub mod Delivered
mod Tests
