-- ===== src/Parser.antt =====
-- What the parsers of proto/nc_redis.c and proto/nc_memcache.c have in common.
pub mod Kind
pub mod Bytes
pub mod Slice
pub mod Machine
pub mod Resume
pub mod Bounds
pub mod Loop
pub mod Forward
pub mod Settle
pub mod Stall
