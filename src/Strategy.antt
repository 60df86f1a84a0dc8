-- ===== src/Strategy.antt =====
-- The rate-limiting algorithms that run in the process.
pub mod Run
pub mod TokenBucket
pub mod LeakyBucket
pub mod FixedWindowCounter
pub mod SlidingWindowLog
pub mod SlidingWindowCounter
pub mod Local
