-- ===== src/Hash.antt =====
-- hash/: the hash functions.
pub mod Fnv1a
pub mod Crc32
