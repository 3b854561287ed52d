-- ===== src/Ha/Binding.antt =====
-- The binding update branch of `ha_working` in ha.c. `Steps` has the groups of requests that its
-- branches share, `V4`, `V6` and `Home` its branches by care-of address, `Handler` the whole.
pub mod Steps
pub mod V4
pub mod V6
pub mod Home
pub mod Handler
