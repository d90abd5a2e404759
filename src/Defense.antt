-- ===== src/Defense.antt =====
-- The defenses (defense/): programs that read a chunk trace and print it changed, segment by segment.
pub mod Segment
pub mod Printable
pub mod Printed
pub mod Scrambling
pub mod Hashing
pub mod MinHash
pub mod Combined
