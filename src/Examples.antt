-- ===== src/Examples.antt =====
-- The theorems at concrete inputs, with whole units or tallies as decimals.
mod Decisions
mod Fill
mod Lease
mod Live
mod Paper
mod Reject
mod Score
mod Signal
mod Sizing
mod Source
mod Work
