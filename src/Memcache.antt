-- ===== src/Memcache.antt =====
-- proto/nc_memcache.c: the Memcache protocol.
pub mod Class
pub mod Names
pub mod Request
pub mod Reply
pub mod Fragment
mod Tests
