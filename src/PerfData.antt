-- ===== src/PerfData.antt =====
-- snail/perf_data: the parser of perf.data files.
pub mod Flags
pub mod SampleFormat
pub mod Attributes
pub mod Validated
pub mod Owners
pub mod Records
pub mod Positions
pub mod Ids
pub mod Feature
pub mod Header
pub mod Reading
pub mod Sections
pub mod Streams
pub mod Metadata
pub mod Process
pub mod Observer
mod Examples
