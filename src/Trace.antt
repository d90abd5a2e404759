-- ===== src/Trace.antt =====
-- The text traces (fs-hasher's `hf-stat` format) that every program reads with the same lines of
-- code, and that the defenses print again.
pub mod Text
pub mod Read
pub mod Print
pub mod RoundTrip
