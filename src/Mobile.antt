-- ===== src/Mobile.antt =====
-- The mobile node, mn/mn.c.
pub mod State
pub mod Handoff
pub mod Trace
pub mod Sound
pub mod Kept
pub mod Events
pub mod Worker
pub mod Numbers
pub mod Probes
pub mod Auto
pub mod Pool
pub mod Attach
pub mod Routes
pub mod Updates
pub mod Faults
pub mod Cleanup
pub mod Pace
pub mod Place
pub mod Announced
pub mod Invariants
pub mod Entries
