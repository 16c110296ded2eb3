-- ===== src/LatencyStats.antt =====
-- src/LatencyStats.hpp and src/LatencyStats.cpp
pub mod Buckets
pub mod BucketLaws
pub mod State
pub mod Output
pub mod History
pub mod Counting
pub mod Recording
pub mod Percentiles
pub mod Examples
