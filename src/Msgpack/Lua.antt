-- ===== src/Msgpack/Lua.antt =====
-- src/msgpack/msgpack.hpp and msgpack.cpp: the values of Lua, packed by `pack_stack_proxy` and
-- `pack_table` and unpacked by `unpack_stack_proxy` and `unpack_table`. The Lua stack is a list, its
-- top first; what Lua would reject, or do with a stack that lacks its arguments, is the fault `none`.
pub mod Values
pub mod Stack
pub mod Read
pub mod Plain
pub mod Scalars
pub mod RoundTrip
pub mod Args
mod Tests
