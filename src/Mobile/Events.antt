-- ===== src/Mobile/Events.antt =====
-- What happens to the mobile node: netlink messages, control commands, the periodic workers.
pub mod Slots
pub mod Links
pub mod Addrs
pub mod Listing
pub mod Control
pub mod Workers
