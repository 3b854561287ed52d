-- ===== src/Ha.antt =====
-- The Home Agent, dsmip-ha/dual-stack-mobile-ipv6-lh/ha.c.
pub mod State
pub mod Special
pub mod Cleanup
pub mod Probe
pub mod Binding
pub mod Round
pub mod Valid
pub mod Trace
