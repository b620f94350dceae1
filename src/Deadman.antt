-- ===== src/Deadman.antt =====
-- The external dead-man monitor (src/hermes_sentinel/deadman.py and deadman_runtime.py).
pub mod Types
pub mod Status
pub mod Machine
pub mod Ledger
pub mod Debounce
pub mod Probe
pub mod Prober
pub mod Snapshot
pub mod Store
pub mod Runtime
pub mod Config
pub mod Process
