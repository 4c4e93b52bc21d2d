-- ===== src/Collector.antt =====
-- sgcl/priv/collector.h: the passes of a collection cycle.
pub mod Mark
mod Tests
pub mod Bits
pub mod Frame
pub mod Measure
pub mod Reach
pub mod Scan
pub mod Groups
pub mod Garbage
pub mod Register
pub mod Ages
pub mod Updated
pub mod Unique
pub mod Roots
pub mod Cycle
pub mod Loop
pub mod Unused
