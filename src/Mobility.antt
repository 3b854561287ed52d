-- ===== src/Mobility.antt =====
-- Mobility headers and their options in dsmip-ha/dual-stack-mobile-ipv6-lh/ha.c.
pub mod Options
pub mod Pad
pub mod Parse
pub mod Messages
