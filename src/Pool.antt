-- ===== src/Pool.antt =====
-- nc_server.c and the distributions of hashkit/: which server of a pool serves a key.
pub mod State
pub mod Dispatch
pub mod Update
pub mod Route
mod Sample
mod Tests
