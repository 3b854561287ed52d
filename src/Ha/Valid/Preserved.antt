-- ===== src/Ha/Valid/Preserved.antt =====
-- Every operation on an entry of `mns` keeps its invariant.
use dsmip.Common.{
  ℕ, ◌≡◌, ◌≢◌, arith, is_pos, true, some, ap, ◌∙◌, get_or, length-set, get_or-set_ne,
}
use dsmip.Net.{In6Addr, ipv6_unmap_addr}
use dsmip.Ha.State.{Mn, Host, Config, Kernel}
use dsmip.Ha.Cleanup.{mn_state_cleanup}
use dsmip.Ha.Probe.{Probe, map_interface, shelve, record_nat, probe_mn}
use dsmip.Ha.Binding.V4.{bu_v4, switch_v4}
use dsmip.Ha.Binding.V6.{bu_v6}
use dsmip.Ha.Binding.Home.{go_home}
use dsmip.Ha.Binding.Handler.{Bu, rebind_cases, accept_bu}
use dsmip.Ha.Valid.{IsValid}
use dsmip.Ha.Valid.Arrays.{find_coa-le, find_coa-pos, length-clear_first}

-- The clean-up of a binding.
pub mn_state_cleanup-IsValid :
    (cfg : Config) (h : Host) → IsValid h.mn → IsValid (mn_state_cleanup cfg h).mn
unfolding mn_state_cleanup
mn_state_cleanup-IsValid cfg h v = ground (arith, length-clear_first 30 h.mn.coav4)

go_home-IsValid : (cfg : Config) (h : Host) → IsValid h.mn → IsValid (go_home cfg h).mn
unfolding go_home
go_home-IsValid cfg h v = ground arith

bu_v6-IsValid :
    (kernel : Kernel) (cfg : Config) (ifindex seqno : ℕ) (hoa coa : In6Addr) (h : Host)
    → IsValid h.mn
    → IsValid (bu_v6 kernel cfg ifindex seqno hoa coa h).mn
unfolding bu_v6
bu_v6-IsValid kernel cfg ifindex seqno hoa coa h v = ground arith

bu_v4-IsValid :
    (kernel : Kernel) (cfg : Config) (ifindex seqno : ℕ) (hoa : In6Addr) (coav4 : ℕ) (h : Host)
    → coav4 ≢ 0
    → IsValid h.mn
    → IsValid (bu_v4 kernel cfg ifindex seqno hoa coav4 h).mn
unfolding bu_v4 switch_v4
bu_v4-IsValid kernel cfg ifindex seqno hoa coav4 h nz v =
    ground (arith, find_coa-le coav4 30 h.mn.coav4, find_coa-pos coav4 29 h.mn.coav4 nz v.slot_zero)

-- An accepted binding update, unless its care-of address is the mapped 0.0.0.0.
pub accept_bu-IsValid :
    (kernel : Kernel) (cfg : Config) (now : ℕ) (bu : Bu) (h : Host)
    → ipv6_unmap_addr bu.coa ≢ some 0
    → IsValid h.mn
    → IsValid (accept_bu kernel cfg now bu h).mn
unfolding accept_bu
accept_bu-IsValid kernel cfg now bu h nz v =
    rebind_cases (λ k. IsValid k.mn) kernel cfg bu _
      (λ c e.
        bu_v4-IsValid kernel cfg bu.ifindex bu.seqno bu.hoa c _ (λ z. nz (e ∙ ap some z)) noted)
      (λ _. go_home-IsValid cfg _ noted)
      (λ _ _. bu_v6-IsValid kernel cfg bu.ifindex bu.seqno bu.hoa bu.coa _ noted)
  where
    noted : IsValid (record (h.mn) { last_bu_seq = bu.seqno; last_bu_t = now })
    noted = ground arith

pub map_interface-IsValid : (m : Mn) (ifindex : ℕ) → IsValid m → IsValid (map_interface m ifindex).0
unfolding map_interface
map_interface-IsValid m ifindex v = ground (arith, length-set m.nif_map m.nnif ifindex)

shelve-IsValid : (m : Mn) (icoa : ℕ) → is_pos m.active ≡ true → IsValid m → IsValid (shelve m icoa)
unfolding shelve
shelve-IsValid m icoa p v = ground (
  arith,
  length-set m.coav4 30 (get_or m.coav4 icoa 0),
  length-set m.in_nat 30 (get_or m.in_nat icoa 0),
  length-set m.natv4 30 (get_or m.natv4 icoa 0),
  length-set m.nat_port 30 (get_or m.nat_port icoa 0),
  get_or-set_ne m.coav4 {i = 30} {j = 0} (get_or m.coav4 icoa 0) 0 (λ e. omega arith),
)

record_nat-IsValid :
    (m : Mn) (now icoa : ℕ) (p : Probe) → icoa ≢ 0 → IsValid m → IsValid (record_nat m now icoa p)
unfolding record_nat
record_nat-IsValid m now icoa p nz v = ground (
  arith,
  length-set m.coav4 icoa p.coa,
  length-set m.last_natv4_t icoa now,
  length-set m.in_nat icoa 1,
  length-set m.in_nat icoa 0,
  length-set m.natv4 icoa p.nat_ip,
  length-set m.nat_port icoa p.nat_port,
  get_or-set_ne m.coav4 {i = icoa} {j = 0} p.coa 0 nz,
)

-- A NAT probe.
pub probe_mn-IsValid : (now : ℕ) (p : Probe) (m : Mn) → IsValid m → IsValid (probe_mn now p m)
unfolding probe_mn map_interface
probe_mn-IsValid now p m v = ground (
  arith,
  map_interface-IsValid m p.ifindex v,
  shelve-IsValid (map_interface m p.ifindex).0 (map_interface m p.ifindex).1,
  record_nat-IsValid (map_interface m p.ifindex).0 now (map_interface m p.ifindex).1 p,
  record_nat-IsValid (shelve (map_interface m p.ifindex).0 (map_interface m p.ifindex).1) now
      (map_interface m p.ifindex).1 p,
)
