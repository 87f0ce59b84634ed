-- ===== src/Llmbench.antt =====
-- llmbench/src/llmbench: the benchmark's planner.
pub mod Cells
pub mod Plans
pub mod Knee
pub mod Planner
mod Tests
