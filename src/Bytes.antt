-- ===== src/Bytes.antt =====
-- Bytes in memory. A byte is a number below 256, a `char` its bit pattern. Fingerprints are the
-- `char[FP_SIZE]` arrays that every program of the repository carries.
pub mod Words
pub mod Keys
pub mod Decimal
unfoldable pub use Words.*
unfoldable pub use Keys.*
