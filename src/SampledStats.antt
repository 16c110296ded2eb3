-- ===== src/SampledStats.antt =====
-- src/SampledStats.hpp and src/SampledStats.cpp: statistics from a bounded sample of the latencies.
pub mod State
pub mod Output
pub mod Sorting
pub mod Storing
pub mod Reporting
pub mod Examples
