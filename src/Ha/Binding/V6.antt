-- ===== src/Ha/Binding/V6.antt =====
-- A binding update with an IPv6 care-of address away from home.
use dsmip.Common.{ℕ, negsuc, is_neg, is_nonzero, ◌&&◌, ◌∷◌, if◌then◌else◌}
use dsmip.Net.{In6Addr, v6_eq}
use dsmip.Ha.State.{Config, Host, Log, Kernel, via_coa, mobile, tunnel66_add, sendba}
use dsmip.Ha.Binding.Steps.{
  add_routes, begin_detour, end_detour, drop_old_tunnels, is_encapsulated, stop_old_encap,
}

module _ (kernel : Kernel) (cfg : Config) where
  -- New tunnel, the detour, the old tunnels, the main routes; then the old encapsulation, or else the
  -- end of the detour.
  unfoldable pub switch_v6 : ℕ → In6Addr → Host → Host
  unfolding add_routes begin_detour end_detour drop_old_tunnels is_encapsulated stop_old_encap
  switch_v6 ifindex coa h =
      let m = record h.mn { coav6 = coa } in
      let log66 : Log = tunnel66_add cfg.hav6 coa ifindex ∷ h.log in
      let tnl66 = kernel log66 in
      let detour = is_nonzero m.active in
      let opened : Host = record {
        mn = m;
        log = if detour then begin_detour tnl66 tnl66 m log66 else log66;
      } in
      let dropped = drop_old_tunnels opened in
      let routed = add_routes mobile tnl66 tnl66 m dropped.log in
      record {
        mn = record dropped.mn { active = negsuc 0; tnl66_ifindex = tnl66 };
        log =
            if is_encapsulated m
            then stop_old_encap cfg m routed
            else if detour
            then end_detour tnl66 tnl66 m routed
            else routed;
      }

  unfoldable pub bu_v6 : ℕ → ℕ → In6Addr → In6Addr → Host → Host
  unfolding switch_v6
  bu_v6 ifindex seqno hoa coa h =
      let ack = λ (k : Host). record k { log = sendba ifindex seqno hoa (via_coa coa) ∷ k.log } in
      if is_neg h.mn.active && v6_eq h.mn.coav6 coa then ack h else ack (switch_v6 ifindex coa h)
