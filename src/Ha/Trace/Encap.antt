-- ===== src/Ha/Trace/Encap.antt =====
-- The UDP encapsulation of a node behind a NAT.
use dsmip.Common.{ℕ, zero, ◌≡◌, refl, arith, ℤ, pos, pos_part, ==_refl, true, false, none, get_or}
use dsmip.Net.{In6Addr, v6_eq_refl, ipv6_unmap_addr}
use dsmip.Ha.State.{Mn, Host, Config, Kernel}
use dsmip.Ha.Trace.{up, Effect, encap}
use dsmip.Ha.Cleanup.{encap_source}
use dsmip.Ha.Binding.Steps.{is_encapsulated}
use dsmip.Ha.Binding.V4.{bu_v4, switch_v4, find_coa}
use dsmip.Ha.Binding.V6.{bu_v6}
use dsmip.Ha.Binding.Home.{go_home}
use dsmip.Ha.Binding.Handler.{Bu, rebind, rebind_cases, accept_bu}

-- The encapsulation that belongs to the slot in use.
abbrev pub slot_encap : Config → Mn → Effect
slot_encap cfg m =
    encap m.hoav6 m.hoav4 (encap_source cfg m (pos_part m.active))
      (get_or m.natv4 (pos_part m.active) 0) (get_or m.nat_port (pos_part m.active) 0)

-- If the slot in use is behind a NAT, its encapsulation is up.
abbrev pub IsShielded : Config → Host → Type 0
IsShielded cfg h = is_encapsulated h.mn ≡ true → up (slot_encap cfg h.mn) h.log ≡ true

module _ (kernel : Kernel) (cfg : Config) where
  switch_v4-IsShielded :
      (ifindex coav4 icoa : ℕ) (h : Host) (a : ℤ)
      → h.mn.active ≡ a
      → IsShielded cfg (switch_v4 kernel cfg ifindex coav4 icoa h)
  unfolding switch_v4 encap_source
  switch_v4-IsShielded ifindex coav4 icoa h (pos zero) e p = ground (
    arith,
    v6_eq_refl h.mn.hoav6,
    ==_refl h.mn.hoav4,
    ==_refl (encap_source cfg h.mn icoa),
    ==_refl (get_or h.mn.natv4 icoa 0),
    ==_refl (get_or h.mn.nat_port icoa 0),
  )
  switch_v4-IsShielded ifindex coav4 icoa h a e p = ground (
    arith,
    v6_eq_refl h.mn.hoav6,
    ==_refl h.mn.hoav4,
    ==_refl (encap_source cfg h.mn icoa),
    ==_refl (get_or h.mn.natv4 icoa 0),
    ==_refl (get_or h.mn.nat_port icoa 0),
  )

  bu_v4-IsShielded :
      (ifindex seqno : ℕ) (hoa : In6Addr) (coav4 : ℕ) (h : Host)
      → IsShielded cfg h
      → IsShielded cfg (bu_v4 kernel cfg ifindex seqno hoa coav4 h)
  unfolding bu_v4
  bu_v4-IsShielded ifindex seqno hoa coav4 h v p =
      let icoa = find_coa coav4 30 h.mn.coav4 in
      ground (arith, switch_v4-IsShielded ifindex coav4 icoa h h.mn.active refl)

  bu_v6-IsShielded :
      (ifindex seqno : ℕ) (hoa coa : In6Addr) (h : Host)
      → IsShielded cfg h
      → IsShielded cfg (bu_v6 kernel cfg ifindex seqno hoa coa h)
  unfolding bu_v6
  bu_v6-IsShielded ifindex seqno hoa coa h v p = ground arith

  -- After an accepted binding update the encapsulation of the slot in use is up if the slot is behind
  -- a NAT, provided that this held before.
  pub accept_bu-IsShielded :
      (now : ℕ) (bu : Bu) (h : Host)
      → IsShielded cfg h
      → IsShielded cfg (accept_bu kernel cfg now bu h)
  unfolding accept_bu is_encapsulated encap_source go_home
  accept_bu-IsShielded now bu h v =
      rebind_cases (IsShielded cfg) kernel cfg bu noted
        (λ a e. bu_v4-IsShielded bu.ifindex bu.seqno bu.hoa a noted v) (λ e p. ground arith)
        (λ e f. bu_v6-IsShielded bu.ifindex bu.seqno bu.hoa bu.coa noted v)
    where
      noted : Host
      noted = record h { mn = record (h.mn) { last_bu_seq = bu.seqno; last_bu_t = now } }

-- Leaving a slot behind a NAT, for home or for an IPv6 care-of address, takes its encapsulation down.
accept_bu-unshields :
    (kernel : Kernel) (cfg : Config) (now : ℕ) (bu : Bu) (h : Host)
    → is_encapsulated h.mn ≡ true
    → ipv6_unmap_addr bu.coa ≡ none
    → up (slot_encap cfg h.mn) (accept_bu kernel cfg now bu h).log ≡ false
unfolding accept_bu rebind bu_v6 go_home encap_source
accept_bu-unshields kernel cfg now bu h p e = ground (
  arith,
  v6_eq_refl h.mn.hoav6,
  ==_refl h.mn.hoav4,
  ==_refl (encap_source cfg h.mn (pos_part h.mn.active)),
  ==_refl (get_or h.mn.natv4 (pos_part h.mn.active) 0),
  ==_refl (get_or h.mn.nat_port (pos_part h.mn.active) 0),
)
