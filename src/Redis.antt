-- ===== src/Redis.antt =====
-- proto/nc_redis.c: the Redis protocol.
pub mod Class
pub mod Command
pub mod Errors
pub mod Lookup
pub mod Request
pub mod Round
pub mod Parse
pub mod Forward
pub mod Chunk
pub mod Whole
pub mod Reply
pub mod Bulk
pub mod Coalesce
pub mod Keys
pub mod RoundTrip
pub mod Fragment
mod Tests
