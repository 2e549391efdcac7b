-- ===== src/Msgpack.antt =====
-- src/msgpack/msgpack.hpp: the binary format of RPC arguments and Lua values.
pub mod Format
pub mod Pack
pub mod Unpack
pub mod Numbers
pub mod Integers
pub mod Lua
pub mod Arrays
mod Tests
pub mod Blobs
