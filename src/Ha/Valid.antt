-- ===== src/Ha/Valid.antt =====
-- The invariant of an entry of `mns` in ha.c.
pub mod Arrays
pub mod Preserved
pub mod Rounds
use dsmip.Common.{ℕ, ◌≤◌, ◌≡◌, ℤ, pos, negsuc, pos_part, is_pos, is_neg, true, length, get_or}
use dsmip.Ha.State.{Mn, nif}

-- The arrays have their size, the slot in use exists, slot 0 stays free, and only the tunnels that
-- belong to the kind of care-of address in use are recorded.
pub record IsValid (m : Mn) : Type 0 where
  pub in_nat_size : length m.in_nat ≡ 31
  pub nif_map_size : length m.nif_map ≡ 31
  pub coav4_size : length m.coav4 ≡ 31
  pub natv4_size : length m.natv4 ≡ 31
  pub last_natv4_t_size : length m.last_natv4_t ≡ 31
  pub nat_port_size : length m.nat_port ≡ 31
  pub nnif_range : m.nnif ≤ 30
  pub slot_range : pos_part m.active ≤ 30
  pub slot_zero : get_or m.coav4 0 0 ≡ 0
  pub on_v6 : is_neg m.active ≡ true → (m.tnl44_ifindex ≡ pos 0) × (m.tnl64_ifindex ≡ pos 0)
  pub on_v4 : is_pos m.active ≡ true → m.tnl66_ifindex ≡ pos 0
  pub at_home :
      m.active ≡ pos 0
      → (m.tnl44_ifindex ≡ pos 0) × (m.tnl64_ifindex ≡ pos 0) × (m.tnl66_ifindex ≡ pos 0)
