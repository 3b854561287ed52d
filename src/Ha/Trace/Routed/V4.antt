-- ===== src/Ha/Trace/Routed/V4.antt =====
-- The routes in the main table when a binding update has an IPv4 care-of address.
use dsmip.Common.{
  ℕ, zero, ◌≡◌, ◌≢◌, refl, arith, ap, ◌∙◌, ℤ, pos, ==ℤ_refl, ==ℤ_iff, ==_refl, is_pos, is_neg, true,
  some, get_or,
}
use dsmip.Net.{In6Addr, v6_eq_refl, ipv6_map_addr, ipv6_unmap_addr}
use dsmip.Ha.State.{Host, Config, Kernel}
use dsmip.Ha.Trace.Routing.{Ends, ends44, ends64, ends66, tunnel_of, IsDriver}
use dsmip.Ha.Valid.Arrays.{find_coa-pos}
use dsmip.Ha.Binding.V4.{bu_v4, switch_v4, find_coa}
use dsmip.Ha.Binding.V6.{}
use dsmip.Ha.Trace.Routed.{
  IsRouted, IsMove, with64, with44, other_index, ends-is44, ends-is64, ends-is66,
}

module _ (kernel : Kernel) (cfg : Config) (ifindex coav4 : ℕ) (coa : In6Addr) (h : Host)
    (mapped : ipv6_unmap_addr coa ≡ some coav4) (w : IsDriver kernel) (v : IsRouted kernel h)
    (new : IsMove kernel cfg ifindex coa h) where
  abbrev asked44 : Ends
  asked44 = ends44 (ipv6_map_addr cfg.hav4) (ipv6_map_addr coav4)

  abbrev asked64 : Ends
  asked64 = ends64 (ipv6_map_addr cfg.hav4) (ipv6_map_addr coav4)

  new_tunnel64 :
      (is_pos h.mn.active ≡ true
        → (kernel (with64 cfg ifindex coav4 h.log) ≢ h.mn.tnl44_ifindex)
          × (kernel (with64 cfg ifindex coav4 h.log) ≢ h.mn.tnl64_ifindex))
      × (is_neg h.mn.active ≡ true → kernel (with64 cfg ifindex coav4 h.log) ≢ h.mn.tnl66_ifindex)
  new_tunnel64 = (
    λ p.
        let (l, r, t) = ends-is44 _ ((v.on_v4 p).2) in
        let (l', r', t') = ends-is64 _ ((v.on_v4 p).3) in
        (
          other_index kernel _ asked64 (ends44 l r) _ h.log w refl ((new.made4 coav4 mapped).0) t
              (λ q. cc),
          other_index kernel _ asked64 (ends64 l' r') _ h.log w refl ((new.made4 coav4 mapped).0) t'
              (λ q. (new.new4 coav4 mapped p).1 (t' ∙ ap some q)),
        ),
    λ p.
        let (l, r, t) = ends-is66 _ ((v.on_v6 p).2) in
        other_index kernel _ asked64 (ends66 l r) _ h.log w refl ((new.made4 coav4 mapped).0) t
          (λ q. cc),
  )

  -- An index that the first request did not give has the tunnel that it had.
  kept_tunnel :
      (i : ℤ)
      → kernel (with64 cfg ifindex coav4 h.log) ≢ i
      → tunnel_of kernel i (with64 cfg ifindex coav4 h.log) ≡ tunnel_of kernel i h.log
  kept_tunnel i ne = ground (arith, ==ℤ_iff (kernel (with64 cfg ifindex coav4 h.log)) i)

  new_tunnel44 :
      (is_pos h.mn.active ≡ true
        → (kernel (with44 cfg ifindex coav4 h.log) ≢ h.mn.tnl44_ifindex)
          × (kernel (with44 cfg ifindex coav4 h.log) ≢ h.mn.tnl64_ifindex))
      × (is_neg h.mn.active ≡ true → kernel (with44 cfg ifindex coav4 h.log) ≢ h.mn.tnl66_ifindex)
  new_tunnel44 = (
    λ p.
        let (l, r, t) = ends-is44 _ ((v.on_v4 p).2) in
        let (l', r', t') = ends-is64 _ ((v.on_v4 p).3) in
        (
          other_index kernel _ asked44 (ends44 l r) _ (with64 cfg ifindex coav4 h.log) w refl
              ((new.made4 coav4 mapped).1) (kept_tunnel _ ((new_tunnel64.0 p).0) ∙ t)
              (λ q. (new.new4 coav4 mapped p).0 (t ∙ ap some q)),
          other_index kernel _ asked44 (ends64 l' r') _ (with64 cfg ifindex coav4 h.log) w refl
              ((new.made4 coav4 mapped).1) (kept_tunnel _ ((new_tunnel64.0 p).1) ∙ t') (λ q. cc),
        ),
    λ p.
        let (l, r, t) = ends-is66 _ ((v.on_v6 p).2) in
        other_index kernel _ asked44 (ends66 l r) _ (with64 cfg ifindex coav4 h.log) w refl
          ((new.made4 coav4 mapped).1) (kept_tunnel _ (new_tunnel64.1 p) ∙ t) (λ q. cc),
  )

  -- The tunnels of the two requests differ.
  apart : kernel (with44 cfg ifindex coav4 h.log) ≢ kernel (with64 cfg ifindex coav4 h.log)
  apart =
      other_index kernel _ asked44 asked64 _ (with64 cfg ifindex coav4 h.log) w refl
        ((new.made4 coav4 mapped).1)
        (ground (arith, ==ℤ_refl (kernel (with64 cfg ifindex coav4 h.log)))) (λ q. cc)

  switch_v4-IsRouted :
      (icoa : ℕ) (a : ℤ)
      → h.mn.active ≡ a
      → icoa ≢ 0
      → IsRouted kernel (switch_v4 kernel cfg ifindex coav4 icoa h)
  unfolding switch_v4
  switch_v4-IsRouted icoa (pos zero) e nz = ground (
    arith,
    v.at_home,
    apart,
    new.made4 coav4 mapped,
    ==_refl h.mn.hoav4,
    v6_eq_refl h.mn.hoav6,
    ==ℤ_refl (kernel (with44 cfg ifindex coav4 h.log)),
    ==ℤ_refl (kernel (with64 cfg ifindex coav4 h.log)),
    ==ℤ_iff (kernel (with44 cfg ifindex coav4 h.log)) (kernel (with64 cfg ifindex coav4 h.log)),
  )
  switch_v4-IsRouted icoa a e nz = ground (
    arith,
    v,
    apart,
    new_tunnel64,
    new_tunnel44,
    new.made4 coav4 mapped,
    ==_refl h.mn.hoav4,
    v6_eq_refl h.mn.hoav6,
    ==ℤ_refl (kernel (with44 cfg ifindex coav4 h.log)),
    ==ℤ_refl (kernel (with64 cfg ifindex coav4 h.log)),
    ==ℤ_refl h.mn.tnl44_ifindex,
    ==ℤ_refl h.mn.tnl64_ifindex,
    ==ℤ_refl h.mn.tnl66_ifindex,
    ==ℤ_iff (kernel (with44 cfg ifindex coav4 h.log)) (kernel (with64 cfg ifindex coav4 h.log)),
    ==ℤ_iff h.mn.tnl44_ifindex (kernel (with44 cfg ifindex coav4 h.log)),
    ==ℤ_iff h.mn.tnl64_ifindex (kernel (with44 cfg ifindex coav4 h.log)),
    ==ℤ_iff h.mn.tnl66_ifindex (kernel (with44 cfg ifindex coav4 h.log)),
    ==ℤ_iff h.mn.tnl44_ifindex (kernel (with64 cfg ifindex coav4 h.log)),
    ==ℤ_iff h.mn.tnl64_ifindex (kernel (with64 cfg ifindex coav4 h.log)),
    ==ℤ_iff h.mn.tnl66_ifindex (kernel (with64 cfg ifindex coav4 h.log)),
  )

  pub bu_v4-IsRouted :
      (seqno : ℕ) (hoa : In6Addr)
      → coav4 ≢ 0
      → get_or h.mn.coav4 0 0 ≡ 0
      → IsRouted kernel (bu_v4 kernel cfg ifindex seqno hoa coav4 h)
  unfolding bu_v4
  bu_v4-IsRouted seqno hoa nz z =
      let icoa = find_coa coav4 30 h.mn.coav4 in
      let s = switch_v4-IsRouted icoa h.mn.active refl (find_coa-pos coav4 29 h.mn.coav4 nz z) in
      ground (arith, v.on_v4, v.on_v6, v.at_home, s.on_v4, s.on_v6, s.at_home)
