-- ===== src/Attack/Pipeline.antt =====
-- From traces to inferences: the neighbour stores that attack/locality/locality_count.cc fills are
-- what the locality-based attacks read.
pub mod Named
pub mod Listed
pub mod Truth
pub mod CipherTrace
pub mod Encrypted
pub mod Experiments
pub mod Attacked
