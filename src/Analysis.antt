-- ===== src/Analysis.antt =====
-- snail/analysis: what the server keeps of a trace, and what it computes from it.
pub mod History
pub mod StackCache
pub mod Stacks
pub mod PathMap
pub mod ModuleMap
pub mod PerfContext
