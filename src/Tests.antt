-- ===== src/Tests.antt =====
-- The theorems at concrete inputs, and the sample parameters that stand for Python's library there.
pub mod Samples
mod Outage
mod Journal
mod Monitor
mod Front
mod Central
mod Process
