-- ===== src/Scoring.antt =====
-- src/omni_benchmark/scoring.py: how a candidate is rewritten before it runs.
pub mod Values
pub mod Compare
pub mod Sensitivity
pub mod Official
pub mod Rewrite
