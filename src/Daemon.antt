-- ===== src/Daemon.antt =====
-- The control daemon cngictrl (cngictrl/cngictrl.c and cngictrl.h).
pub mod Text
pub mod State
pub mod Node
pub mod Ping
pub mod Routes
pub mod Ipfix
pub mod Settings
pub mod Detect
pub mod Words
pub mod Main
pub mod Reach
pub mod Core
pub mod Control
pub mod Served
