-- ===== src/Hash.antt =====
-- hashkit: the hash functions of keys.
pub mod Words
pub mod Tables
pub mod Simple
pub mod Jenkins
pub mod Xor
pub mod Crc
mod Tests
