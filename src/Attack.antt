-- ===== src/Attack.antt =====
-- The attacks (attack/, with copies under defense/): programs that count a trace into LevelDB stores,
-- and programs that infer plaintext chunks from the counts of two traces.
pub mod BasicCount
pub mod Neighbours
pub mod LocalityCount
pub mod Ranking
pub mod Inference
pub mod LocalityAttack
pub mod BasicAttack
pub mod GroundTruthAttack
pub mod Pipeline
