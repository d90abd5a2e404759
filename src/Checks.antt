-- ===== src/Checks.antt =====
-- Tests of the definitions, and the theorems at concrete inputs.
mod Store
mod Queues
mod Defenses
mod Attacks
mod Inferences
mod Iterated
mod Pipelines
mod Prototypes
mod Caches
