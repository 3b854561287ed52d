-- ===== src/Ha/Trace/Leaks.antt =====
-- No tunnel stays up that no entry records.
use dsmip.Common.{
  ℕ, zero, ◌≡◌, ◌≢◌, refl, arith, ℤ, pos, ==ℤ_iff, is_pos, is_neg, true, some, get_or, ◌⊎◌, ◌∷◌,
  ◌∙◌, ap,
}
use dsmip.Net.{In6Addr, ipv6_map_addr, ipv6_unmap_addr}
use dsmip.Ha.State.{Host, Config, Kernel, Log, tunnel44_add, tunnel64_add, tunnel66_add}
use dsmip.Ha.Trace.{tunnel44_up, tunnel64_up, tunnel66_up}
use dsmip.Ha.Cleanup.{mn_state_cleanup}
use dsmip.Ha.Valid.{IsValid}
use dsmip.Ha.Valid.Arrays.{find_coa-pos}
use dsmip.Ha.Binding.V4.{bu_v4, switch_v4, find_coa}
use dsmip.Ha.Binding.V6.{bu_v6}
use dsmip.Ha.Binding.Home.{go_home}
use dsmip.Ha.Binding.Handler.{Bu, rebind_cases, accept_bu}

-- A tunnel with index `i` that is up is in use by this entry, or belongs to another one.
pub record Accounted (kernel : Kernel) (others : ℤ → Type 0) (h : Host) (i : ℤ) : Type 0 where
  pub up44 :
      tunnel44_up kernel i h.log ≡ true
      → ((is_pos h.mn.active ≡ true) × (i ≡ h.mn.tnl44_ifindex)) ⊎ others i
  pub up64 :
      tunnel64_up kernel i h.log ≡ true
      → ((is_pos h.mn.active ≡ true) × (i ≡ h.mn.tnl64_ifindex)) ⊎ others i
  pub up66 :
      tunnel66_up kernel i h.log ≡ true
      → ((is_neg h.mn.active ≡ true) × (i ≡ h.mn.tnl66_ifindex)) ⊎ others i

module _ (kernel : Kernel) (cfg : Config) (others : ℤ → Type 0) where
  go_home-Accounted :
      (h : Host) (i : ℤ) → Accounted kernel others h i → Accounted kernel others (go_home cfg h) i
  unfolding go_home
  go_home-Accounted h i v = ground (
    arith,
    ==ℤ_iff h.mn.tnl44_ifindex i,
    ==ℤ_iff h.mn.tnl64_ifindex i,
    ==ℤ_iff h.mn.tnl66_ifindex i,
  )

  bu_v6-Accounted :
      (ifindex seqno : ℕ) (hoa coa : In6Addr) (h : Host) (i : ℤ)
      → Accounted kernel others h i
      → Accounted kernel others (bu_v6 kernel cfg ifindex seqno hoa coa h) i
  unfolding bu_v6
  bu_v6-Accounted ifindex seqno hoa coa h i v = ground (
    arith,
    ==ℤ_iff h.mn.tnl44_ifindex i,
    ==ℤ_iff h.mn.tnl64_ifindex i,
    ==ℤ_iff h.mn.tnl66_ifindex i,
    ==ℤ_iff (kernel (tunnel66_add cfg.hav6 coa ifindex ∷ h.log)) i,
  )

  module _ (ifindex coav4 icoa : ℕ) (h : Host) (i : ℤ) where
    abbrev log64 : Log
    log64 = tunnel64_add (ipv6_map_addr cfg.hav4) (ipv6_map_addr coav4) ifindex ∷ h.log

    abbrev log44 : Log
    log44 = tunnel44_add (ipv6_map_addr cfg.hav4) (ipv6_map_addr coav4) ifindex ∷ log64

    switch_v4-Accounted :
        (a : ℤ)
        → h.mn.active ≡ a
        → icoa ≢ 0
        → Accounted kernel others h i
        → Accounted kernel others (switch_v4 kernel cfg ifindex coav4 icoa h) i
    unfolding switch_v4
    switch_v4-Accounted (pos zero) e nz v =
        ground (arith, ==ℤ_iff (kernel log64) i, ==ℤ_iff (kernel log44) i)
    switch_v4-Accounted a e nz v = ground (
      arith,
      ==ℤ_iff h.mn.tnl44_ifindex i,
      ==ℤ_iff h.mn.tnl64_ifindex i,
      ==ℤ_iff h.mn.tnl66_ifindex i,
      ==ℤ_iff (kernel log64) i,
      ==ℤ_iff (kernel log44) i,
    )

  bu_v4-Accounted :
      (ifindex seqno : ℕ) (hoa : In6Addr) (coav4 : ℕ) (h : Host) (i : ℤ)
      → coav4 ≢ 0
      → get_or h.mn.coav4 0 0 ≡ 0
      → Accounted kernel others h i
      → Accounted kernel others (bu_v4 kernel cfg ifindex seqno hoa coav4 h) i
  unfolding bu_v4
  bu_v4-Accounted ifindex seqno hoa coav4 h i nz z v =
      let icoa = find_coa coav4 30 h.mn.coav4 in
      let switched =
        switch_v4-Accounted ifindex coav4 icoa h i h.mn.active refl
          (find_coa-pos coav4 29 h.mn.coav4 nz z) v in
      ground (arith, switched.up44, switched.up64, switched.up66)

  -- An accepted binding update leaks no tunnel: for every index, if a tunnel of the index is up only
  -- where this entry uses it or another owns it, then so it is after the update. The entry is valid,
  -- and the care-of address is not the mapped 0.0.0.0. Nothing is assumed of the kernel's answers.
  pub accept_bu-Accounted :
      (now : ℕ) (bu : Bu) (h : Host) (i : ℤ)
      → ipv6_unmap_addr bu.coa ≢ some 0
      → IsValid h.mn
      → Accounted kernel others h i
      → Accounted kernel others (accept_bu kernel cfg now bu h) i
  unfolding accept_bu
  accept_bu-Accounted now bu h i nz valid v =
      rebind_cases (λ k. Accounted kernel others k i) kernel cfg bu noted
        (λ a e.
          bu_v4-Accounted bu.ifindex bu.seqno bu.hoa a noted i (λ z. nz (e ∙ ap some z))
            valid.slot_zero kept)
        (λ e. go_home-Accounted noted i kept)
        (λ e f. bu_v6-Accounted bu.ifindex bu.seqno bu.hoa bu.coa noted i kept)
    where
      noted : Host
      noted = record h { mn = record (h.mn) { last_bu_seq = bu.seqno; last_bu_t = now } }

      kept : Accounted kernel others noted i
      kept = record { up44 = v.up44; up64 = v.up64; up66 = v.up66 }

  -- The clean-up of a valid entry whose recorded tunnels have a nonzero index takes down every tunnel
  -- that the entry uses: any that is still up belongs to another.
  pub mn_state_cleanup-Accounted :
      (h : Host) (i : ℤ)
      → i ≢ pos 0
      → Accounted kernel others h i
      → (tunnel44_up kernel i (mn_state_cleanup cfg h).log ≡ true → others i)
        × (tunnel64_up kernel i (mn_state_cleanup cfg h).log ≡ true → others i)
        × (tunnel66_up kernel i (mn_state_cleanup cfg h).log ≡ true → others i)
  unfolding mn_state_cleanup
  mn_state_cleanup-Accounted h i nz v = ground (
    arith,
    ==ℤ_iff h.mn.tnl44_ifindex i,
    ==ℤ_iff h.mn.tnl64_ifindex i,
    ==ℤ_iff h.mn.tnl66_ifindex i,
  )
