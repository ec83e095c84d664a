-- ===== src/Etl.antt =====
-- snail/etl: reading the events of a trace file in the order of their times.
pub mod Span
pub mod Trace
pub mod Buffer
pub mod Queue
pub mod Merge
pub mod Process
pub mod Open
mod Slots
mod Examples
