-- ===== src/IntervalDom.antt =====
pub mod Solver
pub mod Live
pub mod Narrow
pub mod Residual
pub mod Pivot
pub mod Propagate
pub mod Loops
pub mod Triggers
pub mod Run
pub mod Ops
pub mod Constrain
pub mod Compare
pub mod Assign
mod Tests
