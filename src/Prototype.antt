-- ===== src/Prototype.antt =====
-- The deduplication prototype (prototype/ddfs.cc and its parts).
pub mod Bits
pub mod FpIndex
pub mod Container
pub mod LruCache
pub mod BloomFilter
pub mod Deduplication
