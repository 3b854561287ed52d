-- ===== src/Buffer.antt =====
-- The kernel module databuff.ko (dsmip-ha/dual-stack-mobile-ipv6-lh/databuff/databuff.c), which keeps
-- copies of each mobile node's packets of the last second.
pub mod Store
pub mod Queue
pub mod Table
