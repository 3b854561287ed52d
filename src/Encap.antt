-- ===== src/Encap.antt =====
-- The kernel module for UDP encapsulation, dsmip-ha/dual-stack-mobile-ipv6-lh/udpencap.c.
pub mod Skb
pub mod Output
pub mod Input
pub mod Load
