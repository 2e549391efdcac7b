-- ===== src/RoundRobin.antt =====
-- The pools that hand out their members in turn: src/db/redis/redis_pool.cpp and
-- src/network/io/io_service_pool.cpp.
pub mod Turns
pub mod Redis
pub mod IoServices
mod Tests
